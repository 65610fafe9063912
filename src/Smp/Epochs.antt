-- ===== src/Smp/Epochs.antt =====
-- Acknowledgement of interrupts and shootdowns: the invariant of the pending epochs, and what a
-- completed epoch means (kernel/src/smp.rs).
use bulla.Prelude.{
  ℕ, Bool, true, false, some, arith, Bool-cases, Option-cases, ok, err, Result-cases, inl, inr, ◌≤◌,
  ◌≡◌, ◌↔◌, ◌==◌,
}
use bulla.Prelude.Map.{Map, get, insert, remove, get-insert, get-remove, nat_key}
use bulla.Prelude.Ordered.{IsOrdered, insert-IsOrdered, remove-IsOrdered}
use bulla.Prelude.NatSet.{
  IsAscending, IsSubset, member, add, same, member-add, same_iff, add-IsAscending, eq_of_subset,
}
use bulla.Smp.{CpuId, SmpError, PendingEpoch, acknowledge}

pub record IsSoundEpoch (p : PendingEpoch) : Type 0 where
  pub targets_ascend : IsAscending p.targets
  pub acks_ascend : IsAscending p.acknowledgements
  pub acks_targeted : IsSubset p.acknowledgements p.targets

-- The epochs are in order, none is later than the counter, and only targets have acknowledged.
pub record IsSoundPending (m : Map ℕ PendingEpoch) (next : ℕ) : Type 0 where
  pub ordered : IsOrdered m
  pub sound : (e : ℕ) (p : PendingEpoch) → get e m ≡ some p → IsSoundEpoch p
  pub issued : (e : ℕ) (p : PendingEpoch) → get e m ≡ some p → e ≤ next

-- Every target has acknowledged.
abbrev pub IsComplete : PendingEpoch → Type 0
IsComplete p = IsSubset p.targets p.acknowledgements

pub IsComplete-iff_same :
    (p : PendingEpoch) → IsSoundEpoch p → (same p.acknowledgements p.targets ≡ true) ↔ IsComplete p
IsComplete-iff_same p s = (
  λ h k m. rw ((same_iff p.acknowledgements p.targets).0 h) m,
  λ h.
      (same_iff p.acknowledgements p.targets).1 (
        eq_of_subset p.acknowledgements p.targets s.acks_ascend s.targets_ascend s.acks_targeted h),
)

abbrev pub acked_by : CpuId → PendingEpoch → PendingEpoch
acked_by cpu p = record p { acknowledgements = add cpu p.acknowledgements }

pub acked_by-IsSoundEpoch :
    (cpu : CpuId) (p : PendingEpoch)
    → IsSoundEpoch p
    → member cpu p.targets ≡ true
    → IsSoundEpoch (acked_by cpu p)
acked_by-IsSoundEpoch cpu p s h = record {
  targets_ascend = s.targets_ascend;
  acks_ascend = add-IsAscending cpu p.acknowledgements s.acks_ascend;
  acks_targeted = λ k m. ground (arith, member-add cpu k p.acknowledgements, s.acks_targeted k);
}

module _ (m : Map ℕ PendingEpoch) (next : ℕ) (inv : IsSoundPending m next) where
  pub insert-IsSoundPending :
      (e : ℕ) (p : PendingEpoch) (next' : ℕ)
      → next ≤ next'
      → e ≤ next'
      → IsSoundEpoch p
      → IsSoundPending (insert e p m) next'
  insert-IsSoundPending e p next' h k s = record {
    ordered = insert-IsOrdered e p m inv.ordered;
    sound = λ j q g. elim (Bool-cases (e == j)) [
      | inl eq ↦ let pq : p ≡ q = ground (arith, get-insert e j p m) in rw pq at s
      | inr ne ↦ inv.sound j q (ground (arith, get-insert e j p m))
    ];
    issued = λ j q g. ground (arith, get-insert e j p m, inv.issued j q);
  }

  pub remove-IsSoundPending : (e : ℕ) → IsSoundPending (remove e m) next
  remove-IsSoundPending e = record {
    ordered = remove-IsOrdered e m inv.ordered;
    sound = λ j q g. inv.sound j q (ground (arith, get-remove e j m));
    issued = λ j q g. inv.issued j q (ground (arith, get-remove e j m));
  }

-- What a successful acknowledgement found and wrote.
pub record Acknowledged (m : Map ℕ PendingEpoch) (e : ℕ) (cpu : CpuId) (b : Bool) : Type 0 where
  pub entry : PendingEpoch
  pub found : get e m ≡ some entry
  pub targeted : member cpu entry.targets ≡ true
  pub first_time : member cpu entry.acknowledgements ≡ false
  pub result : acknowledge m e cpu ≡ (insert e (acked_by cpu entry) m, ok b)
  pub complete : b ≡ same (add cpu entry.acknowledgements) entry.targets

pub acknowledge-Acknowledged :
    (m : Map ℕ PendingEpoch) (e : ℕ) (cpu : CpuId) (b : Bool)
    → (acknowledge m e cpu).1 ≡ ok b
    → Acknowledged m e cpu b
unfolding acknowledge
acknowledge-Acknowledged m e cpu b h = elim (Option-cases (get e m)) [
  | inl missing ↦ absurd (ground arith)
  | inr (p, found) ↦ record {
    entry = p;
    found = found;
    targeted = ground arith;
    first_time = ground arith;
    result = ground arith;
    complete = ground arith;
  }
]

pub acknowledge-err :
    (m : Map ℕ PendingEpoch) (e : ℕ) (cpu : CpuId) (x : SmpError)
    → (acknowledge m e cpu).1 ≡ err x
    → (acknowledge m e cpu).0 ≡ m
unfolding acknowledge
acknowledge-err m e cpu x h = ground arith

pub acknowledge-IsSoundPending :
    (m : Map ℕ PendingEpoch) (next e : ℕ) (cpu : CpuId)
    → IsSoundPending m next
    → IsSoundPending (acknowledge m e cpu).0 next
acknowledge-IsSoundPending m next e cpu inv = elim (Result-cases (acknowledge m e cpu).1) [
  | inl (b, h) ↦
      let a = acknowledge-Acknowledged m e cpu b h in
      rw a.result (
        insert-IsSoundPending m next inv e (acked_by cpu a.entry) next (omega arith)
          (inv.issued e a.entry a.found)
          (acked_by-IsSoundEpoch cpu a.entry (inv.sound e a.entry a.found) a.targeted))
  | inr (x, h) ↦ rw (acknowledge-err m e cpu x h) inv
]
