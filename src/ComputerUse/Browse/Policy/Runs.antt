-- ===== src/ComputerUse/Browse/Policy/Runs.antt =====
-- The loop of `run_browse`, and the whole of it, under the policy.
use ai_agents_enterprise.Prelude.{
  ℕ, zero, suc, ◌+◌, ◌≤◌, String, ◌≡◌, refl, subst, ◌⊎◌, inl, inr, Bool, false, Option, none, some,
  List, [], ◌++◌, length, arith,
}
use ai_agents_enterprise.Netguard.{assert_public_url}
use ai_agents_enterprise.Netguard.Guarded.{assert_public_url-PublicUrl, WasPublic, Checked-cases}
use ai_agents_enterprise.ComputerUse.Browse.Page.{
  Effect, done, failed, Web, Deed, Progress, Round, again, ended, crashed, Outcome, result, raised,
  deeds_of, start, outcome_of,
}
use ai_agents_enterprise.ComputerUse.Browse.{browse_round, browse_loop, drive_page, run_browse}
use ai_agents_enterprise.ComputerUse.Browse.Policy.{Allowed, FitsRound, Within, browse_round-fits}

module _ {A W : Type 0} (web : Web A W) where
  open web use {net, py}

  Round-cases :
      (r : Round)
      → (r ≡ crashed)
        ⊎ (((p : Progress) × (d : Option Deed) × (r ≡ ended p d))
            ⊎ ((p : Progress) × (d : Option Deed) × (r ≡ again p d)))
  Round-cases crashed = inl refl
  Round-cases (ended p d) = inr (inl (p, d, refl))
  Round-cases (again p d) = inr (inr (p, d, refl))

  abbrev LoopFits : Bool → ℕ → Option Progress × List Deed × W → Type 0
  LoopFits s n out = Allowed web s out.1 × Within web n out.0

  Within-le : (m n : ℕ) (out : Option Progress) → m ≤ n → Within web m out → Within web n out
  Within-le m n none le h = tt
  Within-le m n (some p) le h = omega (arith, le, h)

  -- A round that goes on, before a rest that is allowed.
  again-fits :
      (s : Bool) (n left : ℕ) (p : Progress) (d : Option Deed) (out : Option Progress)
      (deeds : List Deed)
      → FitsRound web s n (again p d)
      → Allowed web p.sensitive_entered deeds
      → Within web (length p.steps + left) out
      → Allowed web s (deeds_of d ++ deeds) × Within web (n + suc left) out
  again-fits s n left p none out deeds (same, one_more) h within =
      (subst (λ b. Allowed web b deeds) same h, Within-le _ _ out (omega (arith, one_more)) within)
  again-fits s n left p (some d) out deeds (ok, same, one_more) h within = (
    (ok, subst (λ b. Allowed web b deeds) same h),
    Within-le _ _ out (omega (arith, one_more)) within,
  )

  browse_loop-fits :
      (left : ℕ) (goal : String) (p : Progress) (w : W)
      → LoopFits p.sensitive_entered (length p.steps + left) (browse_loop web left goal p w)
  unfolding browse_loop
  browse_loop-fits zero goal p w = (tt, omega arith)
  browse_loop-fits (suc left) goal p w =
      let s = p.sensitive_entered in
      let fits = browse_round-fits web goal p w in
      elim (Round-cases (browse_round web goal p w).0) [
        | inl e ↦ rw (browse_loop, e) (tt, tt)
        | inr (inl (p', d, e)) ↦
            let (ok, one_more) = rw (e) at fits in rw (browse_loop, e) (ok, omega (arith, one_more))
        | inr (inr (p', d, e)) ↦
            let (ok, within) = browse_loop-fits left goal p' (browse_round web goal p w).1 in
            rw (browse_loop, e)
              (again-fits s (length p.steps) left p' d _ _ (rw (e) at fits) ok within)
      ]

  -- At most `most` steps, or the one step of a refusal before which nothing was asked for.
  abbrev pub Bounded : ℕ → Outcome × List Deed → Type 0
  Bounded most (result r, deeds) = (length r.steps ≤ most) ⊎ ((length r.steps ≡ 1) × (deeds ≡ []))
  Bounded most (raised, deeds) = Unit

  outcome_of-Bounded :
      (url goal : String) (most : ℕ) (out : Option Progress) (deeds : List Deed)
      → Within web most out
      → Bounded most (outcome_of url goal out, deeds)
  outcome_of-Bounded url goal most none deeds h = tt
  outcome_of-Bounded url goal most (some p) deeds h = inl h

  pub record SafeRun (most : ℕ) (out : Outcome × List Deed × W) : Type 0 where
    pub allowed : Allowed web false out.1
    pub bounded : Bounded most (out.0, out.1)

  Effect-cases : (e : Effect) → (e ≡ done) ⊎ ((why : String) × (e ≡ failed why))
  Effect-cases done = inl refl
  Effect-cases (failed why) = inr (why, refl)

  drive_page-SafeRun :
      (url goal : String) (most : ℕ) (w : W)
      → WasPublic net url
      → SafeRun most (drive_page web url goal most w)
  unfolding drive_page
  drive_page-SafeRun url goal most w public = elim (Effect-cases (web.goto url w).0) [
    | inl e ↦
        let (ok, within) = browse_loop-fits most goal start (web.goto url w).1 in
        rw (drive_page, e)
          (record {
            allowed = (public, ok);
            bounded =
                outcome_of-Bounded url goal most _ _ (Within-le _ most _ (omega arith) within);
          })
    | inr (why, e) ↦ rw (drive_page, e) (record { allowed = (public, tt); bounded = tt })
  ]

  -- Whatever the model answers and the page does, every address that the page is asked to open, the
  -- start included, passed the guard of public URLs, no click and no text has one of the words of a
  -- transaction in its action, and after a text was typed into a sensitive field, or one that looks
  -- like a card number, nothing is clicked any more. The run records at most `most` steps, or,
  -- where the start is refused, one step with the page never opened.
  pub run_browse-SafeRun :
      (url goal : String) (most : ℕ) (w : W) → SafeRun most (run_browse web url goal most w)
  unfolding run_browse
  run_browse-SafeRun url goal most w =
      let w1 = (assert_public_url net url w).1 in
      elim (Checked-cases net (assert_public_url net url w).0) [
        | inr (why, e) ↦ rw (run_browse, e) (record { allowed = tt; bounded = inr (refl, refl) })
        | inl (u, e) ↦ elim (Effect-cases (web.create w1).0) [
          | inr (why, c) ↦ rw (run_browse, e, c) (record { allowed = tt; bounded = tt })
          | inl c ↦
              rw (run_browse, e, c)
                (drive_page-SafeRun url goal most (web.create w1).1
                  (w, (assert_public_url-PublicUrl net url u w e).1))
        ]
      ]
