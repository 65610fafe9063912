-- ===== src/Smp/Shootdown.antt =====
-- The shootdown protocol: when an epoch can be completed (kernel/src/smp.rs).
use bulla.Prelude.{ℕ, sym, Bool, true, some, List, arith, Option-cases, ok, inl, inr, ◌≡◌, ◌↔◌}
use bulla.Prelude.Map.{get, get-insert, nat_key}
use mathlib.Core.Path.{subst}
use bulla.Prelude.NatSet.{member, member-add}
use bulla.Smp.{
  CpuId, SmpState, PendingEpoch, online, begin_shootdown, acknowledge_shootdown, complete_shootdown,
}
use bulla.Smp.Epochs.{
  IsSoundEpoch, IsComplete, IsComplete-iff_same, acked_by, acknowledge-Acknowledged,
  acked_by-IsSoundEpoch,
}
use bulla.Smp.Calls.{IsSound, Call, run}
use bulla.Smp.Underway.{acknowledged, undisturbed, begun, steps}

-- The answer `true` of an acknowledgement means that every target has acknowledged, and `false`
-- that one has not.
pub acknowledge_shootdown-IsComplete_iff :
    (s : SmpState) (e : ℕ) (cpu : CpuId) (b : Bool)
    → IsSound s
    → (acknowledge_shootdown s e cpu).1 ≡ ok b
    → (p : PendingEpoch) × (get e (acknowledge_shootdown s e cpu).0.shootdowns ≡ some p)
      × (member cpu p.acknowledgements ≡ true)
      × ((b ≡ true) ↔ IsComplete p)
unfolding acknowledge_shootdown
acknowledge_shootdown-IsComplete_iff s e cpu b inv h =
    let a = acknowledge-Acknowledged s.shootdowns e cpu b h in
    let p = acked_by cpu a.entry in
    let sound : IsSoundEpoch p =
      acked_by-IsSoundEpoch cpu a.entry (inv.shootdowns_sound.sound e a.entry a.found) a.targeted in
    (
      p,
      rw a.result (ground (arith, get-insert e e p s.shootdowns)),
      ground (arith, member-add cpu cpu a.entry.acknowledgements),
      subst (λ x. (x ≡ true) ↔ IsComplete p) (sym a.complete) (IsComplete-iff_same p sound),
    )

-- A shootdown completes exactly when it is pending and every target has acknowledged it.
pub complete_shootdown_iff :
    (s : SmpState) (e : ℕ)
    → IsSound s
    → ((complete_shootdown s e).1 ≡ ok tt)
      ↔ ((p : PendingEpoch) × (get e s.shootdowns ≡ some p) × IsComplete p)
unfolding complete_shootdown
complete_shootdown_iff s e inv = (
  λ h. elim (Option-cases (get e s.shootdowns)) [
    | inl missing ↦ absurd (ground arith)
    | inr (p, found) ↦
        (p, found, (IsComplete-iff_same p (inv.shootdowns_sound.sound e p found)).0 (ground arith))
  ],
  λ (p, found, whole).
      let eq = (IsComplete-iff_same p (inv.shootdowns_sound.sound e p found)).1 whole in
      ground arith,
)

-- Once a shootdown has begun, after any calls of which none begins another shootdown and none tries
-- to complete this one, it can be completed exactly when each CPU that was online at its beginning
-- has acknowledged it in one of these calls. With no CPU online at its beginning, that is at once.
pub shootdown_completes :
    (s s' : SmpState) (e : ℕ) (cs : List Call)
    → IsSound s
    → begin_shootdown s ≡ (s', ok e)
    → undisturbed e cs ≡ true
    → ((complete_shootdown (run s' cs) e).1 ≡ ok tt)
      ↔ ((k : ℕ) → member k (online s) ≡ true → acknowledged e k cs ≡ true)
unfolding member
shootdown_completes s s' e cs inv h quiet =
    let (u, none_yet) = begun s s' e inv h in
    let (v, grown) = steps s' e cs (online s) u quiet in
    let completes_iff = complete_shootdown_iff (run s' cs) e v.sound in
    (
      λ done k t.
          let (p, found, whole) = completes_iff.0 done in
          let same_entry : p ≡ v.entry = cc (found, v.found) in
          let m = whole k (rw same_entry (rw v.fixed t)) in ground (arith, grown k t),
      λ all.
          completes_iff.1 (
            v.entry,
            v.found,
            λ k m. let t = rw v.fixed at m in ground (arith, grown k t, all k t),
          ),
    )
