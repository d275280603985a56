-- ===== src/Trace/Chain.antt =====
-- Appending to the trace of trace.rs keeps it verified, and rewinding to a checkpoint takes back
-- exactly what was appended since.
use aster_lang.Base.{
  ℕ, zero, suc, ◌+◌, ◌≤◌, String, ◌≡◌, refl, sym, ap, List, [], ◌∷◌, ◌++◌, none, some, arith,
  eq_iff, u64_max, length, get_elem?, take, length-append, inl, inr, subst,
}
use mathlib.Core.List.{append-nil, append_assoc}
use aster_lang.Base.Outcome.{Result, ok, Result-cases}
use aster_lang.Json.{Json, Codec}
use aster_lang.Trace.{
  TraceEntry, Trace, head_hash, content_hash, append, checkpoint, check_entry, verify_from, verify,
  rewind_to, hash_at,
}

abbrev hash_from : String → List TraceEntry → ℕ → String
hash_from start entries zero = start
hash_from start entries (suc i) = elim (get_elem? entries i) [ none ↦ "" | some e ↦ e.entry_hash ]

hash_from-append :
    (start : String) (es rest : List TraceEntry)
    → hash_from start (es ++ rest) (length es) ≡ head_hash start es
unfolding head_hash
hash_from-append start [] rest = refl
hash_from-append start (x ∷ []) rest = refl
hash_from-append start (x ∷ y ∷ es) rest = hash_from-append x.entry_hash (y ∷ es) rest

take-append : (es rest : List TraceEntry) → take (length es) (es ++ rest) ≡ es
take-append [] rest = refl
take-append (x ∷ es) rest = ap (◌∷◌ x) (take-append es rest)

hash_at-hash_from :
    (codec : Codec) (value : TraceEntry → Result String Json) (es : List TraceEntry) (i : ℕ)
    → hash_at codec value es i ≡ hash_from "" es i
hash_at-hash_from codec value es zero = refl
hash_at-hash_from codec value es (suc i) = refl

module _ (codec : Codec) (value : TraceEntry → Result String Json) where
  verify_from-append :
      (run_id : String) (index n : ℕ) (previous : String) (es : List TraceEntry) (e : TraceEntry)
      → n ≡ index + length es
      → verify_from codec value run_id index previous es ≡ ok tt
      → check_entry codec value run_id n (head_hash previous es) e ≡ ok tt
      → verify_from codec value run_id index previous (es ++ e ∷ []) ≡ ok tt
  unfolding verify_from head_hash
  verify_from-append run_id index n previous [] e at h k =
      let here : n ≡ index = omega arith in
      rw (subst (λ i. check_entry codec value run_id i previous e ≡ ok tt) here k)
  verify_from-append run_id index n previous (x ∷ es) e at h k =
      ground (arith, verify_from-append run_id (suc index) n x.entry_hash es e)

  -- the entry that `append` pushes, before its hash is set
  abbrev pub next_entry : String → Json → Trace → TraceEntry
  next_entry kind payload t = record {
    schema_version = 1;
    run_id = t.run_id;
    sequence = length t.entries;
    kind = kind;
    payload = payload;
    previous_entry_hash = head_hash "" t.entries;
    entry_hash = "";
  }

  -- A successful append adds one entry, with the hash of its content.
  pub append-eq-ok :
      (kind : String) (payload : Json) (t t' : Trace)
      → append codec value kind payload t ≡ (ok tt, t')
      → (hash : String) × (content_hash codec value (next_entry kind payload t) ≡ ok hash)
        × (length t.entries ≤ u64_max)
        × (t' ≡ record t {
          entries = t.entries ++ record (next_entry kind payload t) { entry_hash = hash } ∷ [];
        })
  unfolding append
  append-eq-ok kind payload t t' e =
      elim (Result-cases (content_hash codec value (next_entry kind payload t))) [
        | inl (hash, done) ↦ (hash, done, ground arith, ground arith)
        | inr (why, failed) ↦ absurd (ground arith)
      ]

  pub check_next :
      (kind : String) (payload : Json) (t : Trace) (hash : String)
      → length t.entries ≤ u64_max
      → content_hash codec value (next_entry kind payload t) ≡ ok hash
      → check_entry codec value t.run_id
          (length t.entries)
          (head_hash "" t.entries)
          (record (next_entry kind payload t) { entry_hash = hash })
        ≡ ok tt
  unfolding check_entry content_hash
  check_next kind payload t hash room done = ground (
    arith,
    eq_iff t.run_id t.run_id,
    eq_iff (head_hash "" t.entries) (head_hash "" t.entries),
    eq_iff hash hash,
  )

  -- A trace that verifies still verifies after an append that succeeds.
  pub verify-append :
      (kind : String) (payload : Json) (t t' : Trace)
      → verify codec value t ≡ ok tt
      → append codec value kind payload t ≡ (ok tt, t')
      → verify codec value t' ≡ ok tt
  unfolding verify
  verify-append kind payload t t' h e =
      let (hash, done, room, at) = append-eq-ok kind payload t t' e in
      rw at (
        verify_from-append t.run_id 0 (length t.entries) "" t.entries
          (record (next_entry kind payload t) { entry_hash = hash }) (omega arith) h
          (check_next kind payload t hash room done))

  -- The traces that successful appends lead to from `start`.
  pub data Extends (start : Trace) : Trace → Type 0 where
    here : Extends start start
    appends :
        {t t' : Trace} (kind : String) (payload : Json)
        → Extends start t
        → append codec value kind payload t ≡ (ok tt, t')
        → Extends start t'

  Extends-verify :
      {start t : Trace}
      → Extends start t
      → verify codec value start ≡ ok tt
      → verify codec value t ≡ ok tt
  Extends-verify here h = h
  Extends-verify (appends {t} {t'} kind payload x e) h =
      verify-append kind payload t t' (Extends-verify x h) e

  Extends-entries :
      {start t : Trace}
      → Extends start t
      → (es : List TraceEntry) × (t ≡ record start { entries = start.entries ++ es })
  Extends-entries {start} here =
      ([], ap (λ es. record start { entries = es }) (sym (append-nil start.entries)))
  Extends-entries {start} (appends {t} {t'} kind payload x e) =
      let (es, at) = Extends-entries x in
      let (hash, _, _, at') = append-eq-ok kind payload t t' e in
      let new : TraceEntry = record (next_entry kind payload t) { entry_hash = hash } in
      (es ++ new ∷ [], ground (arith, append_assoc start.entries es (new ∷ [])))

  -- Rewinding to a checkpoint of a verified trace, after any successful appends, gives back that
  -- trace.
  pub rewind_to-checkpoint :
      (start t : Trace) (position : ℕ) (hash : String)
      → verify codec value start ≡ ok tt
      → checkpoint codec value start ≡ ok (position, hash)
      → Extends start t
      → rewind_to codec value position hash t ≡ (ok tt, start)
  unfolding rewind_to checkpoint
  rewind_to-checkpoint start t position hash h k x =
      let (es, at) = Extends-entries x in
      ground (
        arith,
        Extends-verify x h,
        hash_at-hash_from codec value t.entries position,
        hash_from-append "" start.entries es,
        take-append start.entries es,
        length-append start.entries es,
        eq_iff hash hash,
      )
