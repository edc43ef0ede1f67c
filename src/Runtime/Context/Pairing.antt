-- ===== src/Runtime/Context/Pairing.antt =====
-- Compaction never separates a tool call from its results.
use ai_agents_enterprise.Prelude.{
  ℕ, zero, suc, ◌+◌, ◌-◌, String, ◌≡◌, refl, sym, ap, ◌∙◌, List, [], ◌∷◌, length, take, drop, ltb,
  ◌⊎◌, inl, inr, arith, Bool-cases,
}
use ai_agents_enterprise.Runtime.Types.{
  Message, user_message, assistant_message, tool_result, ToolCall, StepOutput, Turned, turned,
  unavailable,
}
use ai_agents_enterprise.Runtime.Context.{
  ContextPolicy, Compacted, unchanged, compacted, failed, leading_results, choose_cut, compact,
  maybe_compact, should_compact, render_transcript,
}

successor : (j k : ℕ) → suc j + k ≡ suc (j + k)
successor j k = omega arith

module _ {A : Type 0} where
  abbrev pub ids : List (ToolCall A) → List String
  ids [] = []
  ids (c ∷ cs) = c.id ∷ ids cs

  -- The results of the calls `pending` come first, in order, and the rest is paired too.
  abbrev pub PairedFrom : (pending : List String) → List (Message A) → Type 0
  PairedFrom pending [] = pending ≡ []
  PairedFrom pending (user_message content ∷ t) = (pending ≡ []) × PairedFrom [] t
  PairedFrom pending (assistant_message content calls ∷ t) =
      (pending ≡ []) × PairedFrom (ids calls) t
  PairedFrom pending (tool_result id name content is_error ∷ t) =
      (later : List String) × (pending ≡ id ∷ later) × PairedFrom later t

  -- Each assistant message is followed by exactly one result for each of its calls, in order, and
  -- no result stands anywhere else.
  abbrev pub Paired : List (Message A) → Type 0
  Paired t = PairedFrom [] t

  PairedFrom-drop :
      (k : ℕ) (pending : List String) (t : List (Message A))
      → PairedFrom pending t
      → (pending' : List String) × PairedFrom pending' (drop k t)
  PairedFrom-drop zero pending t h = (pending, h)
  PairedFrom-drop (suc k) pending [] h = (pending, h)
  PairedFrom-drop (suc k) pending (user_message content ∷ t) h = PairedFrom-drop k [] t h.1
  PairedFrom-drop (suc k) pending (assistant_message content calls ∷ t) h =
      PairedFrom-drop k (ids calls) t h.1
  PairedFrom-drop (suc k) pending (tool_result id name content is_error ∷ t) h =
      PairedFrom-drop k h.0 t h.2

  -- Behind the leading results nothing is pending.
  PairedFrom-leading_results :
      (pending : List String) (t : List (Message A))
      → PairedFrom pending t
      → Paired (drop (leading_results t) t)
  unfolding leading_results
  PairedFrom-leading_results pending [] h = refl
  PairedFrom-leading_results pending (user_message content ∷ t) h = (refl, h.1)
  PairedFrom-leading_results pending (assistant_message content calls ∷ t) h = (refl, h.1)
  PairedFrom-leading_results pending (tool_result id name content is_error ∷ t) h =
      PairedFrom-leading_results h.0 t h.2

  drop-nil : (k : ℕ) → drop {A = Message A} k [] ≡ []
  drop-nil zero = refl
  drop-nil (suc k) = refl

  drop-add : (j k : ℕ) (t : List (Message A)) → drop (j + k) t ≡ drop k (drop j t)
  drop-add zero k t = ap (λ n. drop n t) (omega arith)
  drop-add (suc j) k [] = drop-nil (suc j + k) ∙ sym (drop-nil k)
  drop-add (suc j) k (m ∷ t) = ap (λ n. drop n (m ∷ t)) (successor j k) ∙ drop-add j k t

  choose_cut-Paired : (t : List (Message A)) (k : ℕ) → Paired t → Paired (drop (choose_cut t k) t)
  unfolding choose_cut
  choose_cut-Paired t k h =
      let start = length t - k in
      let (pending, later) = PairedFrom-drop start [] t h in
      rw (drop-add start (leading_results (drop start t)) t)
        (PairedFrom-leading_results pending (drop start t) later)

  -- The transcript that the agent goes on with.
  abbrev pub transcript_of : List (Message A) → Compacted A → List (Message A)
  transcript_of t unchanged = t
  transcript_of t (compacted t' event) = t'
  transcript_of t failed = t

pub Turned-cases :
    {A : Type 0} (x : Turned A) → ((out : StepOutput A) × (x ≡ turned out)) ⊎ (x ≡ unavailable)
Turned-cases (turned out) = inl (out, refl)
Turned-cases unavailable = inr refl

module _ {A W : Type 0} (dumps : A → String) (summarize : String → W → Turned A × W) where
  -- `maybe_compact` keeps a transcript paired, at every policy: the recent part that it keeps does
  -- not start inside the results of a call that it has folded into the summary.
  pub maybe_compact-Paired :
      (policy : ContextPolicy) (t : List (Message A)) (step : ℕ) (w : W)
      → Paired t
      → Paired (transcript_of t (maybe_compact dumps summarize policy t step w).0)
  unfolding maybe_compact compact
  maybe_compact-Paired policy t step w h =
      let cut = choose_cut t policy.keep_recent_items in
      elim (Bool-cases (should_compact dumps policy t)) [
        | inr small ↦ rw small h
        | inl big ↦ elim (Bool-cases (ltb cut 2)) [
          | inl few ↦ rw (big, few) h
          | inr enough ↦
              rw (big, enough)
                (elim (Turned-cases (summarize (render_transcript dumps (take cut t)) w).0) [
                  | inl (out, e) ↦ rw e (refl, choose_cut-Paired t policy.keep_recent_items h)
                  | inr e ↦ rw e h
                ])
        ]
      ]
