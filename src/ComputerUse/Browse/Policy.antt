-- ===== src/ComputerUse/Browse/Policy.antt =====
-- What `run_browse` asks the page for, under its safety policy.
pub mod Runs
use ai_agents_enterprise.Prelude.{
  ℕ, zero, suc, ◌+◌, ◌≤◌, String, ◌≡◌, refl, ◌∙◌, subst, ◌⊎◌, inl, inr, Bool, true, false, ◌||◌,
  ◌==◌, Option, none, some, List, [], ◌∷◌, ◌++◌, length, length-append, Bool-cases, Option-cases,
  arith,
}
use ai_agents_enterprise.Runtime.Types.{Turned, turned, unavailable}
use ai_agents_enterprise.Autonomous.Answers.{Fields}
use ai_agents_enterprise.Netguard.{assert_public_url}
use ai_agents_enterprise.Netguard.Guarded.{assert_public_url-PublicUrl, WasPublic, Checked-cases}
use ai_agents_enterprise.ComputerUse.Browse.Actions.{
  extract_json_object, is_sensitive_type, names_transaction, is_unsafe, text_at,
}
use ai_agents_enterprise.ComputerUse.Browse.Page.{
  Effect, done, failed, Web, Observation, Deed, opened, clicked, filled_in, Progress, Performed,
  Round, again, ended, crashed, Outcome, result, raised, deeds_of, start, absorb_turn, tried, noted,
  named_action, outcome_of,
}
use ai_agents_enterprise.ComputerUse.Browse.{
  do_click, do_type, do_navigate, perform_action, act_on, answer_turn, browse_round, browse_loop,
  drive_page, run_browse,
}

module _ {A W : Type 0} (web : Web A W) where
  open web use {net, py}

  -- Whether sensitive data was typed, once the deed is done.
  abbrev pub after : Bool → Deed → Bool
  after s (opened url) = s
  after s (clicked action) = s
  after s (filled_in action) = s || is_sensitive_type py action

  -- What the policy lets the page be asked for.
  abbrev pub IsAllowed : Bool → Deed → Type 0
  IsAllowed s (opened url) = WasPublic net url
  IsAllowed s (clicked action) = (s ≡ false) × (names_transaction py action ≡ false)
  IsAllowed s (filled_in action) = names_transaction py action ≡ false

  -- Every deed is allowed after the ones before it.
  abbrev pub Allowed : Bool → List Deed → Type 0
  Allowed s [] = Unit
  Allowed s (d ∷ ds) = IsAllowed s d × Allowed (after s d) ds

  abbrev Fits : Bool → Option Deed → (stop now : Bool) → Type 0
  Fits s none stop now = now ≡ s
  Fits s (some d) stop now = IsAllowed s d × (stop ≡ false → now ≡ after s d)

  abbrev FitsPerformed : Bool → Performed → Type 0
  FitsPerformed s done_now = Fits s done_now.deed done_now.stop done_now.sensitive

  -- A round adds one step, and its deed is allowed.
  abbrev FitsRound : Bool → ℕ → Round → Type 0
  FitsRound s n crashed = Unit
  FitsRound s n (ended p d) = Allowed s (deeds_of d) × (length p.steps ≡ suc n)
  FitsRound s n (again p none) = (p.sensitive_entered ≡ s) × (length p.steps ≡ suc n)
  FitsRound s n (again p (some d)) =
      IsAllowed s d × (p.sensitive_entered ≡ after s d) × (length p.steps ≡ suc n)

  abbrev Within : ℕ → Option Progress → Type 0
  Within n none = Unit
  Within n (some p) = length p.steps ≤ n

  tried-fits :
      (e : Effect) (s now : Bool) (d : Deed)
      → IsAllowed s d
      → now ≡ after s d
      → FitsPerformed s (tried e (elim e [ done ↦ now | failed why ↦ s ]) d)
  tried-fits done s now d h same = (h, λ _. same)
  tried-fits (failed why) s now d h same = (h, λ e. cc)

  tried_same :
      (e : Effect) (s : Bool) (d : Deed)
      → IsAllowed s d
      → s ≡ after s d
      → FitsPerformed s (tried e s d)
  tried_same done s d h same = (h, λ _. same)
  tried_same (failed why) s d h same = (h, λ e. cc)

  do_navigate-fits :
      (action : Fields) (s : Bool) (w : W) → FitsPerformed s (do_navigate web action s w).0
  unfolding do_navigate
  do_navigate-fits action s w =
      let target = text_at py "url" action in
      elim (Checked-cases net (assert_public_url net target w).0) [
        | inr (why, e) ↦ rw (do_navigate, e) refl
        | inl (url, e) ↦
            rw (do_navigate, e)
              (tried_same _ s (opened target)
                (w, (assert_public_url-PublicUrl net target url w e).1) refl)
      ]

  is_unsafe-split :
      (action : Fields) (s : Bool)
      → is_unsafe py action s ≡ false
      → (names_transaction py action ≡ false)
        × ((text_at py "action" action == "click") ≡ true → s ≡ false)
  unfolding is_unsafe
  is_unsafe-split action s h = ground arith

  perform_action-fits :
      (action : Fields) (s : Bool) (w : W)
      → is_unsafe py action s ≡ false
      → FitsPerformed s (perform_action web (text_at py "action" action) action s w).0
  unfolding perform_action do_click do_type
  perform_action-fits action s w h =
      let kind = text_at py "action" action in
      let (clean, unless_click) = is_unsafe-split action s h in
      elim (Bool-cases (kind == "click")) [
        | inl c ↦
            rw (perform_action, c) (tried_same _ s (clicked action) (unless_click c, clean) refl)
        | inr c ↦ elim (Bool-cases (kind == "type")) [
          | inl t ↦ rw (perform_action, c, t) (tried-fits _ s _ (filled_in action) clean refl)
          | inr t ↦ elim (Bool-cases (kind == "navigate")) [
            | inl n ↦ rw (perform_action, c, t, n) (do_navigate-fits action s w)
            | inr n ↦ rw (perform_action, c, t, n) refl
          ]
        ]
      ]

  noted-fits :
      (summary : String) (action : Fields) (done_now : Performed) (p : Progress) (s : Bool)
      → FitsPerformed s done_now
      → FitsRound s (length p.steps) (noted summary action done_now p)
  noted-fits summary action done_now p s h =
      let one_more =
        length-append p.steps
          (record { observation_summary = summary; action = action; note = done_now.note } ∷ []) in
      elim (Bool-cases done_now.stop) [
        | inl stop ↦ elim (Option-cases done_now.deed) [
          | inl n ↦ rw (stop, n) (tt, omega (arith, one_more))
          | inr (d, y) ↦ rw (stop, y) (((rw (y) at h).0, tt), omega (arith, one_more))
        ]
        | inr on ↦ elim (Option-cases done_now.deed) [
          | inl n ↦ rw (on, n) (rw (n) at h, omega (arith, one_more))
          | inr (d, y) ↦ rw (on, y) ((rw (y) at h).0, (rw (y) at h).1 on, omega (arith, one_more))
        ]
      ]

  act_on-fits :
      (summary : String) (action : Fields) (p : Progress) (w : W)
      → FitsRound p.sensitive_entered (length p.steps) (act_on web summary action p w).0
  unfolding act_on
  act_on-fits summary action p w = elim (Bool-cases (text_at py "action" action == "finish")) [
    | inl f ↦ rw (act_on, f) (tt, length-append p.steps _ ∙ omega arith)
    | inr f ↦ elim (Bool-cases (is_unsafe py action p.sensitive_entered)) [
      | inl u ↦ rw (act_on, f, u) (tt, length-append p.steps _ ∙ omega arith)
      | inr u ↦
          rw (act_on, f, u)
            (noted-fits summary action _ p p.sensitive_entered
              (perform_action-fits action p.sensitive_entered w u))
    ]
  ]

  answer_turn-fits :
      (obs : Observation) (out : Turned A) (p : Progress) (w : W)
      → FitsRound p.sensitive_entered (length p.steps) (answer_turn web obs out p w).0
  unfolding answer_turn
  answer_turn-fits obs unavailable p w = (tt, length-append p.steps _ ∙ omega arith)
  answer_turn-fits obs (turned out) p w =
      elim (Option-cases (named_action (extract_json_object py.loads out.text))) [
        | inl n ↦ rw (answer_turn, n) (tt, length-append p.steps _ ∙ omega arith)
        | inr (action, n) ↦
            rw (answer_turn, n) (act_on-fits _ action (absorb_turn out.provider out.cost_usd p) w)
      ]

  browse_round-fits :
      (goal : String) (p : Progress) (w : W)
      → FitsRound p.sensitive_entered (length p.steps) (browse_round web goal p w).0
  unfolding browse_round
  browse_round-fits goal p w = elim (Option-cases (web.observe w).0) [
    | inl n ↦ rw (browse_round, n) tt
    | inr (obs, n) ↦ rw (browse_round, n) (answer_turn-fits obs _ p _)
  ]
