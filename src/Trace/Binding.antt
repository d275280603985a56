-- ===== src/Trace/Binding.antt =====
-- The head hash of a verified trace of trace.rs binds every entry, unless two entries of the
-- traces compared collide under the canonical hash.
use aster_lang.Base.{
  ℕ, suc, String, ◌≤◌, ◌≡◌, refl, sym, ◌∙◌, ap, u64_max, ◌⊎◌, inl, inr, List, [], ◌∷◌, arith,
  eq_iff, length,
}
use aster_lang.Base.Outcome.{Result, ok, Result-cases}
use aster_lang.Json.{Json, Codec}
use aster_lang.Trace.{
  TraceEntry, Trace, head_hash, content_hash, checkpoint, check_entry, verify_from, verify, content,
}

-- `e` is one of the entries.
abbrev pub Among : TraceEntry → List TraceEntry → Type 0
Among e [] = ⊥
Among e (x ∷ es) = (e ≡ x) ⊎ Among e es

content-injective : (e f : TraceEntry) → content e ≡ content f → e.entry_hash ≡ f.entry_hash → e ≡ f
content-injective e f h k = ground arith

module _ (codec : Codec) (value : TraceEntry → Result String Json) where
  -- Entries of the two lists whose contents hash alike have the same contents.
  abbrev pub NoCollision : List TraceEntry → List TraceEntry → Type 0
  NoCollision es fs =
      (e f : TraceEntry)
      → Among e es
      → Among f fs
      → content_hash codec value e ≡ content_hash codec value f
      → content e ≡ content f

  check_entry-hash :
      (run_id : String) (index : ℕ) (previous : String) (e : TraceEntry)
      → check_entry codec value run_id index previous e ≡ ok tt
      → (content_hash codec value e ≡ ok e.entry_hash) × (e.previous_entry_hash ≡ previous)
  unfolding check_entry
  check_entry-hash run_id index previous e h = elim (Result-cases (content_hash codec value e)) [
    | inl (t, p) ↦ (
      ground (arith, eq_iff t e.entry_hash),
      ground (arith, eq_iff e.previous_entry_hash previous),
    )
    | inr (t, p) ↦ absurd (ground arith)
  ]

  verify_from-injective :
      (run_id run_id' : String) (index index' : ℕ) (previous previous' : String)
      (es fs : List TraceEntry)
      → NoCollision es fs
      → length es ≡ length fs
      → verify_from codec value run_id index previous es ≡ ok tt
      → verify_from codec value run_id' index' previous' fs ≡ ok tt
      → head_hash previous es ≡ head_hash previous' fs
      → (es ≡ fs) × (previous ≡ previous')
  unfolding verify_from head_hash
  verify_from-injective run_id run_id' index index' previous previous' [] [] n l h k q = (refl, q)
  verify_from-injective run_id run_id' index index' previous previous' [] (f ∷ fs) n l h k q =
      absurd (omega arith)
  verify_from-injective run_id run_id' index index' previous previous' (e ∷ es) [] n l h k q =
      absurd (omega arith)
  verify_from-injective run_id run_id' index index' previous previous' (e ∷ es) (f ∷ fs) n l h k q =
      let (rest, link) =
        verify_from-injective run_id run_id' (suc index) (suc index') e.entry_hash f.entry_hash es
          fs (λ a b x y. n a b (inr x) (inr y)) (omega arith) (ground arith) (ground arith) q in
      let (hash_e, back_e) = check_entry-hash run_id index previous e (ground arith) in
      let (hash_f, back_f) = check_entry-hash run_id' index' previous' f (ground arith) in
      let same = n e f (inl refl) (inl refl) (hash_e ∙ ap ok link ∙ sym hash_f) in
      let whole = content-injective e f same link in (cc, ground arith)

  -- Two verified traces with one checkpoint, no two entries of which collide, have the same
  -- entries, whatever their run ids were said to be.
  pub checkpoint-injective :
      (t u : Trace)
      → NoCollision t.entries u.entries
      → verify codec value t ≡ ok tt
      → verify codec value u ≡ ok tt
      → checkpoint codec value t ≡ checkpoint codec value u
      → length t.entries ≤ u64_max
      → t.entries ≡ u.entries
  unfolding verify checkpoint
  checkpoint-injective t u n h k q room =
      (verify_from-injective t.run_id u.run_id 0 0 "" "" t.entries u.entries n (ground arith) h k
        (ground arith)).0
