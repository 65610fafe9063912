-- ===== src/Smp/Underway.antt =====
-- A shootdown from its beginning until the next begins or it is completed: acknowledgements are
-- accepted for the newest epoch only (kernel/src/smp.rs).
use bulla.Prelude.{
  ℕ, refl, sym, ap, Bool, true, false, not, some, List, arith, ==_iff, Bool-cases, Option-cases, ok,
  err, Result-cases, inl, inr, ◌≤◌, ◌≡◌, ◌≢◌, ◌&&◌, ◌||◌, [], ◌∷◌, ◌==◌,
}
use bulla.Prelude.Map.{Map, get, get-insert, get-remove, nat_key}
use bulla.Prelude.Ordered.{last_key, last_key-none, last_key_found}
use mathlib.Core.Path.{subst}
use bulla.Prelude.NatSet.{member, member-add}
use bulla.Smp.{
  CpuId, CpuSet, SmpState, SmpError, PendingEpoch, online, acknowledge, begin_shootdown,
  acknowledge_shootdown, complete_shootdown, fresh_epoch, discover, transition, begin_ipi,
  acknowledge_ipi,
}
use bulla.Smp.Epochs.{IsSoundPending, acked_by, acknowledge-Acknowledged, acknowledge-err}
use bulla.Smp.Calls.{
  IsSound, Call, discovers, transitions, begins_ipi, acks_ipi, acks_shootdown, begins_shootdown,
  completes, after, run, after-IsSound,
}

-- The epoch under way: the newest, with an entry of which `targets` is fixed.
pub record Underway (s : SmpState) (e : ℕ) (targets : CpuSet) : Type 0 where
  pub sound : IsSound s
  pub newest : s.next_shootdown_epoch ≡ e
  pub entry : PendingEpoch
  pub found : get e s.shootdowns ≡ some entry
  pub fixed : entry.targets ≡ targets

-- A target whose acknowledgement of the newest epoch is refused has acknowledged it before.
refused_again :
    (m : Map ℕ PendingEpoch) (e : ℕ) (cpu : CpuId) (p : PendingEpoch) (x : SmpError)
    → IsSoundPending m e
    → get e m ≡ some p
    → (acknowledge m e cpu).1 ≡ err x
    → member cpu p.targets ≡ true
    → member cpu p.acknowledgements ≡ true
unfolding acknowledge
refused_again m e cpu p x inv found h target = elim (Option-cases (last_key m)) [
  | inl empty ↦ absurd (last_key-none m e p found empty)
  | inr (top, last) ↦
      let (v, g) = last_key_found m top last in
      let le : top ≤ e = inv.issued top v g in ground arith
]

-- An acknowledgement of `epoch` by the CPU.
unfoldable pub acknowledges : ℕ → CpuId → Call → Bool
acknowledges epoch cpu (acks_shootdown e c) = e == epoch && c == cpu
acknowledges _ _ _ = false

-- A call that begins no shootdown and does not complete `epoch`.
unfoldable pub leaves : ℕ → Call → Bool
leaves _ begins_shootdown = false
leaves epoch (completes e) = not (e == epoch)
leaves _ _ = true

unfoldable pub acknowledged : ℕ → CpuId → List Call → Bool
acknowledged epoch cpu [] = false
acknowledged epoch cpu (c ∷ cs) = acknowledges epoch cpu c || acknowledged epoch cpu cs

unfoldable pub undisturbed : ℕ → List Call → Bool
undisturbed epoch [] = true
undisturbed epoch (c ∷ cs) = leaves epoch c && undisturbed epoch cs

-- The epoch is still under way in `s'`, and of its targets those have acknowledged it that had in
-- `s` and those for which `more` says so.
abbrev pub Progress :
    (s s' : SmpState) (e : ℕ) (targets : CpuSet) → Underway s e targets → (CpuId → Bool) → Type 0
Progress s s' e targets u more =
    (v : Underway s' e targets) × ((k : ℕ)
      → member k targets ≡ true
      → member k v.entry.acknowledgements ≡ (member k u.entry.acknowledgements || more k))

-- Of a call that leaves the entry and the counter.
elsewhere :
    (s s' : SmpState) (e : ℕ) (targets : CpuSet) (u : Underway s e targets)
    → IsSound s'
    → s'.next_shootdown_epoch ≡ s.next_shootdown_epoch
    → get e s'.shootdowns ≡ get e s.shootdowns
    → Progress s s' e targets u λ _. false
elsewhere s s' e targets u sound newest found = (
  record {
    sound = sound;
    newest = cc (newest, u.newest);
    entry = u.entry;
    found = cc (found, u.found);
    fixed = u.fixed;
  },
  λ k t. ground arith,
)

-- One acknowledgement, accepted or refused, adds the caller if it is a target.
acks_step :
    (s : SmpState) (e : ℕ) (cpu : CpuId) (targets : CpuSet) (u : Underway s e targets)
    → Progress s (after s (acks_shootdown e cpu)) e targets u λ k. cpu == k
unfolding after acknowledge_shootdown
acks_step s e cpu targets u = elim (Result-cases (acknowledge s.shootdowns e cpu).1) [
  | inl (b, h) ↦
      let a = acknowledge-Acknowledged s.shootdowns e cpu b h in
      let same_entry : a.entry ≡ u.entry = cc (a.found, u.found) in
      (
        record {
          sound = after-IsSound s u.sound (acks_shootdown e cpu);
          newest = u.newest;
          entry = acked_by cpu a.entry;
          found = rw a.result (ground (arith, get-insert e e (acked_by cpu a.entry) s.shootdowns));
          fixed = rw same_entry u.fixed;
        },
        λ k t. ground (arith, member-add cpu k a.entry.acknowledgements),
      )
  | inr (x, h) ↦
      let pending : IsSoundPending s.shootdowns e = rw u.newest at u.sound.shootdowns_sound in
      (
        record {
          sound = after-IsSound s u.sound (acks_shootdown e cpu);
          newest = u.newest;
          entry = u.entry;
          found = rw (acknowledge-err s.shootdowns e cpu x h) u.found;
          fixed = u.fixed;
        },
        λ k t. elim (Bool-cases (cpu == k)) [
          | inl own ↦
              let eq : cpu ≡ k = (==_iff cpu k).0 own in
              let m =
                refused_again s.shootdowns e cpu u.entry x pending u.found h
                  (rw u.fixed (rw eq t)) in
              ground (arith, m)
          | inr other ↦ ground arith
        ],
      )
]

-- An acknowledgement of another epoch leaves the entry.
acks_other :
    (s : SmpState) (e other : ℕ) (cpu : CpuId)
    → (other == e) ≡ false
    → get e (after s (acks_shootdown other cpu)).shootdowns ≡ get e s.shootdowns
unfolding after acknowledge_shootdown
acks_other s e other cpu ne = elim (Result-cases (acknowledge s.shootdowns other cpu).1) [
  | inl (b, h) ↦
      let a = acknowledge-Acknowledged s.shootdowns other cpu b h in
      rw a.result (ground (arith, get-insert other e (acked_by cpu a.entry) s.shootdowns))
  | inr (x, h) ↦ rw (acknowledge-err s.shootdowns other cpu x h) refl
]

completes_other :
    (s : SmpState) (e other : ℕ)
    → (other == e) ≡ false
    → get e (after s (completes other)).shootdowns ≡ get e s.shootdowns
unfolding after complete_shootdown
completes_other s e other ne = ground (arith, get-remove other e s.shootdowns)

-- The counter stays in every call that begins no shootdown.
counter_kept :
    (s : SmpState) (e : ℕ) (c : Call)
    → leaves e c ≡ true
    → (after s c).next_shootdown_epoch ≡ s.next_shootdown_epoch
unfolding after leaves discover transition begin_ipi acknowledge_ipi acknowledge_shootdown
    complete_shootdown
counter_kept s e (discovers cpu) h = ground arith
counter_kept s e (transitions cpu next) h = ground arith
counter_kept s e (begins_ipi ids) h = ground arith
counter_kept s e (acks_ipi x cpu) h = ground arith
counter_kept s e (acks_shootdown x cpu) h = ground arith
counter_kept s e begins_shootdown h = absurd (ground arith)
counter_kept s e (completes x) h = ground arith

-- The entry stays in every call that acknowledges no shootdown and does not complete it.
entry_kept :
    (s : SmpState) (e : ℕ) (c : Call)
    → leaves e c ≡ true
    → ((x : ℕ) (cpu : CpuId) → c ≢ acks_shootdown x cpu)
    → get e (after s c).shootdowns ≡ get e s.shootdowns
unfolding after leaves discover transition begin_ipi acknowledge_ipi
entry_kept s e (discovers cpu) h other = ground arith
entry_kept s e (transitions cpu next) h other = ground arith
entry_kept s e (begins_ipi ids) h other = ground arith
entry_kept s e (acks_ipi x cpu) h other = ground arith
entry_kept s e (acks_shootdown x cpu) h other = absurd (other x cpu refl)
entry_kept s e begins_shootdown h other = absurd (ground arith)
entry_kept s e (completes x) h other = completes_other s e x (ground arith)

acks_any :
    (s : SmpState) (e x : ℕ) (cpu : CpuId) (targets : CpuSet) (u : Underway s e targets)
    → Progress s (after s (acks_shootdown x cpu)) e targets u λ k. x == e && cpu == k
unfolding leaves
acks_any s e x cpu targets u = elim (Bool-cases (x == e)) [
  | inl own ↦
      let (v, grown) = acks_step s e cpu targets u in
      subst (λ x. Progress s (after s (acks_shootdown x cpu)) e targets u λ k. x == e && cpu == k)
        (sym ((==_iff x e).0 own)) (v, λ k t. ground (arith, grown k t))
  | inr foreign ↦
      let c = acks_shootdown x cpu in
      let (v, grown) =
        elsewhere s (after s c) e targets u (after-IsSound s u.sound c) (counter_kept s e c refl)
          (acks_other s e x cpu foreign) in
      (v, λ k t. ground (arith, grown k t))
]

step :
    (s : SmpState) (e : ℕ) (c : Call) (targets : CpuSet) (u : Underway s e targets)
    → leaves e c ≡ true
    → Progress s (after s c) e targets u λ k. acknowledges e k c
unfolding acknowledges
step s e (acks_shootdown x cpu) targets u h = acks_any s e x cpu targets u
step s e c targets u h =
    elsewhere s (after s c) e targets u (after-IsSound s u.sound c) (counter_kept s e c h)
      (entry_kept s e c h λ x cpu eq. cc eq)

pub steps :
    (s : SmpState) (e : ℕ) (cs : List Call) (targets : CpuSet) (u : Underway s e targets)
    → undisturbed e cs ≡ true
    → Progress s (run s cs) e targets u λ k. acknowledged e k cs
unfolding run undisturbed acknowledged
steps s e [] targets u h = (u, λ k t. ground arith)
steps s e (c ∷ cs) targets u h =
    let (v, grown) = step s e c targets u (ground arith) in
    let (w, grown') = steps (after s c) e cs targets v (ground arith) in
    (w, λ k t. ground (arith, grown k t, grown' k t))

pub begun :
    (s s' : SmpState) (e : ℕ)
    → IsSound s
    → begin_shootdown s ≡ (s', ok e)
    → (u : Underway s' e (online s)) × (u.entry.acknowledgements ≡ [])
unfolding begin_shootdown after
begun s s' e inv h = (
  record {
    sound = subst IsSound (ap (λ p. p.0) h) (after-IsSound s inv begins_shootdown);
    newest = ground arith;
    entry = fresh_epoch (online s);
    found = ground (arith, get-insert e e (fresh_epoch (online s)) s.shootdowns);
    fixed = refl;
  },
  refl,
)
