-- ===== src/ComputerUse/Sandbox/Histories.antt =====
-- How a session of the CRM gets to its pages.
use ai_agents_enterprise.Prelude.{
  String, ◌≡◌, ◌≢◌, eq_iff, refl, sym, ap, ◌∙◌, ◌⊎◌, inl, inr, Bool, true, false, List, [], ◌∷◌,
  ◌++◌, ◌==◌, Bool-cases, arith,
}
use ai_agents_enterprise.ComputerUse.Sandbox.{
  login, customer_form, success, clicking, Action, UiSession, new_session, field, click, perform,
  act_all,
}

module _ (strip : String → String) where
  -- `p` holds after each of the actions.
  abbrev pub HoldsAlong : (UiSession → Bool) → List Action → UiSession → Type 0
  HoldsAlong p [] s = p s ≡ true
  HoldsAlong p (a ∷ actions) s = (p s ≡ true) × HoldsAlong p actions (perform strip a s)

  -- An action among the actions starts what `p` says, which holds from then on, and at that action
  -- `E` holds.
  pub record Since (p : UiSession → Bool) (E : Action → UiSession → Type 0) (actions : List Action)
      (s : UiSession) : Type 0 where
    pub before : List Action
    pub at : Action
    pub after : List Action
    pub split : actions ≡ before ++ at ∷ after
    pub event : E at (act_all strip before s)
    pub kept : HoldsAlong p after (perform strip at (act_all strip before s))

  true_ne_false : true ≡ false → ⊥
  true_ne_false e = cc

  module _ (p : UiSession → Bool) (E : Action → UiSession → Type 0)
      (starts : (a : Action) (s : UiSession)
        → p s ≡ false
        → p (perform strip a s) ≡ true
        → E a s) where
    now : (actions : List Action) (s : UiSession) → HoldsAlong p actions s → p s ≡ true
    now [] s h = h
    now (a ∷ actions) s (h, _) = h

    later :
        (a : Action) (actions : List Action) (s : UiSession)
        → Since p E actions (perform strip a s)
        → Since p E (a ∷ actions) s
    unfolding act_all
    later a actions s since = record {
      before = a ∷ since.before;
      at = since.at;
      after = since.after;
      split = ap (λ rest. a ∷ rest) since.split;
      event = since.event;
      kept = since.kept;
    }

    all_along :
        (actions : List Action) (s : UiSession)
        → p (act_all strip actions s) ≡ true
        → HoldsAlong p actions s ⊎ Since p E actions s
    unfolding act_all
    all_along [] s h = inl h
    all_along (a ∷ actions) s h = elim (all_along actions (perform strip a s) h) [
      | inr since ↦ inr (later a actions s since)
      | inl along ↦ elim (Bool-cases (p s)) [
        | inl on ↦ inl (on, along)
        | inr off ↦ inr (record {
          before = [];
          at = a;
          after = actions;
          split = refl;
          event = starts a s off (now actions (perform strip a s) along);
          kept = along;
        })
      ]
    ]

    pub since_start :
        (actions : List Action) (s : UiSession)
        → p s ≡ false
        → p (act_all strip actions s) ≡ true
        → Since p E actions s
    since_start actions s off h = elim (all_along actions s h) [
      | inl along ↦ absurd (true_ne_false (sym (now actions s along) ∙ off))
      | inr since ↦ since
    ]

  abbrev pub is_away : UiSession → Bool
  is_away s = elim s.page [ login ↦ false | _ ↦ true ]

  abbrev pub is_saved : UiSession → Bool
  is_saved s = elim s.page [ success ↦ true | _ ↦ false ]

  -- The click that signs in, with the valid user and password in the fields.
  pub record SignsIn (a : Action) (s : UiSession) : Type 0 where
    pub page : s.page ≡ login
    pub kind : a.kind ≡ clicking
    pub target : (a.target == "submit") ≡ true
    pub user : field "username" s ≡ "admin"
    pub password : field "password" s ≡ "secret"

  -- The click that saves a customer whose name is not blank.
  pub record Saves (a : Action) (s : UiSession) : Type 0 where
    pub page : s.page ≡ customer_form
    pub kind : a.kind ≡ clicking
    pub target : (a.target == "save") ≡ true
    pub named : strip (field "name" s) ≢ ""

  away-SignsIn :
      (a : Action) (s : UiSession)
      → is_away s ≡ false
      → is_away (perform strip a s) ≡ true
      → SignsIn a s
  unfolding perform click
  away-SignsIn a s off on = record {
    page = ground arith;
    kind = ground arith;
    target = ground arith;
    user = ground (arith, eq_iff (field "username" s) "admin");
    password = ground (arith, eq_iff (field "password" s) "secret");
  }

  saved-Saves :
      (a : Action) (s : UiSession)
      → is_saved s ≡ false
      → is_saved (perform strip a s) ≡ true
      → Saves a s
  unfolding perform click
  saved-Saves a s off on = record {
    page = ground arith;
    kind = ground arith;
    target = ground arith;
    named = ground (arith, eq_iff (strip (field "name" s)) "");
  }

  -- Whatever is done to a new session, if it is not at the login page afterwards, then one of the
  -- actions was a click on `submit` at the login page while the fields held the valid user and
  -- password, and the session was away from the login page ever since.
  pub act_all-signed_in :
      (actions : List Action)
      → is_away (act_all strip actions new_session) ≡ true
      → Since is_away SignsIn actions new_session
  act_all-signed_in actions away =
      since_start is_away SignsIn away-SignsIn actions new_session refl away

  -- Whatever is done to a new session, if it is at the success page afterwards, then one of the
  -- actions was a click on `save` at the form while the name was not blank, the session was at the
  -- success page ever since, and among the actions before that click there was one that signed in,
  -- with the session away from the login page from there to the click.
  pub act_all-saved :
      (actions : List Action)
      → is_saved (act_all strip actions new_session) ≡ true
      → (save : Since is_saved Saves actions new_session) × Since is_away SignsIn save.before
          new_session
  act_all-saved actions saved =
      let save = since_start is_saved Saves saved-Saves actions new_session refl saved in
      let event = save.event in (save, act_all-signed_in save.before (rw (event.page)))
