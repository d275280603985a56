-- ===== src/Session/Replay/Same.antt =====
-- The tests by which `replay_run` of run.rs compares a run with its record are tests of equality.
use aster_lang.Base.{String, ◌≡◌, refl, true, List, [], ◌∷◌, arith, eq_iff}
use aster_lang.Base.Maps.{BTreeMap}
use aster_lang.Json.{Json}
use aster_lang.Json.Same.{eq_of_same_json, same_json_self}
use aster_lang.Machine.State.{EffectKind, EffectRequest, RunOutcome, AuditEvent}
use aster_lang.Session.Replay.{same_kind, same_request, same_audit, same_entries, same_outcome}

kind_eq : (a b : EffectKind) → same_kind a b ≡ true → a ≡ b
kind_eq EffectKind.model EffectKind.model h = refl
kind_eq EffectKind.read EffectKind.read h = refl
kind_eq EffectKind.approval EffectKind.approval h = refl
kind_eq EffectKind.write EffectKind.write h = refl
kind_eq _ _ h = cc

same_kind_self : (a : EffectKind) → same_kind a a ≡ true
same_kind_self EffectKind.model = refl
same_kind_self EffectKind.read = refl
same_kind_self EffectKind.approval = refl
same_kind_self EffectKind.write = refl

pub eq_of_same_request : (a b : EffectRequest) → same_request a b ≡ true → a ≡ b
unfolding same_request
eq_of_same_request a b h = ground (
  arith,
  kind_eq a.kind b.kind,
  eq_iff a.identity b.identity,
  eq_of_same_json a.payload b.payload,
  eq_iff a.request_hash b.request_hash,
)

pub same_request_self : (a : EffectRequest) → same_request a a ≡ true
unfolding same_request
same_request_self a = ground (
  arith,
  same_kind_self a.kind,
  eq_iff a.identity a.identity,
  same_json_self a.payload,
  eq_iff a.request_hash a.request_hash,
)

pub eq_of_same_audit : (xs ys : List AuditEvent) → same_audit xs ys ≡ true → xs ≡ ys
unfolding same_audit
eq_of_same_audit [] [] h = refl
eq_of_same_audit (a ∷ xs) (b ∷ ys) h =
    ground
      (arith, eq_iff a.kind b.kind, eq_of_same_json a.payload b.payload, eq_of_same_audit xs ys)
eq_of_same_audit _ _ h = cc

pub same_audit_self : (xs : List AuditEvent) → same_audit xs xs ≡ true
unfolding same_audit
same_audit_self [] = refl
same_audit_self (a ∷ xs) =
    ground (arith, eq_iff a.kind a.kind, same_json_self a.payload, same_audit_self xs)

entries_eq : (m n : BTreeMap String Json) → same_entries m n ≡ true → m ≡ n
unfolding same_entries
entries_eq [] [] h = refl
entries_eq ((k, v) ∷ m) ((j, w) ∷ n) h =
    ground (arith, eq_iff k j, eq_of_same_json v w, entries_eq m n)
entries_eq _ _ h = cc

same_entries_self : (m : BTreeMap String Json) → same_entries m m ≡ true
unfolding same_entries
same_entries_self [] = refl
same_entries_self ((k, v) ∷ m) = ground (arith, eq_iff k k, same_json_self v, same_entries_self m)

pub eq_of_same_outcome : (a b : RunOutcome) → same_outcome a b ≡ true → a ≡ b
unfolding same_outcome
eq_of_same_outcome a b h =
    ground (arith, entries_eq a.state b.state, eq_of_same_json a.value b.value)

pub same_outcome_self : (a : RunOutcome) → same_outcome a a ≡ true
unfolding same_outcome
same_outcome_self a = ground (arith, same_entries_self a.state, same_json_self a.value)
