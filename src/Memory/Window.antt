-- ===== src/Memory/Window.antt =====
-- The window for one temporary mapping at a time (kernel/src/memory.rs).
use bulla.Prelude.{
  ℕ, Bool, true, false, not, Option, none, some, List, arith, ltb, Option-cases, Result, ok,
  refuse_if, ok_or, attempt, checked_add, inl, inr, ◌+◌, ◌≤◌, ◌≡◌, ◌≢◌, ◌&&◌, ◌||◌, [], ◌∷◌, ◌==◌,
}
use bulla.Capability.{
  Capability, CapabilityKind, kind_eq, contains, contains_range, read, map_right,
}
use bulla.Memory.{
  MapError, missing_rights, out_of_range, epoch_overflow, window_full, stale_generation,
  wrong_window_capability,
}

pub record TemporaryMapping : Type 0 where
  pub virtual_base : ℕ
  pub physical_base : ℕ
  pub len : ℕ
  pub generation : ℕ

pub record TemporaryMapWindow : Type 0 where
  pub base : ℕ
  pub len : ℕ
  pub next_generation : ℕ
  pub active : Option TemporaryMapping

abbrev pub new_window : ℕ → ℕ → TemporaryMapWindow
new_window base len = record { base = base; len = len; next_generation = 1; active = none }

abbrev is_taken : Option TemporaryMapping → Bool
is_taken none = false
is_taken (some _) = true

unfoldable pub map_window :
    TemporaryMapWindow
    → Capability
    → Capability
    → TemporaryMapWindow × Result MapError TemporaryMapping
map_window w window physical =
    attempt
      (refuse_if (not (kind_eq window.kind CapabilityKind.virt_region)) wrong_window_capability) w
      λ _.
        attempt
          (refuse_if (not (contains window.rights map_right) || not (contains physical.rights read))
            missing_rights)
          w
          λ _. attempt (refuse_if (is_taken w.active) window_full) w λ _.
            attempt
              (refuse_if (ltb w.len physical.len || not (contains_range window w.base physical.len))
                out_of_range)
              w
              λ _.
                let mapping : TemporaryMapping = record {
                  virtual_base = w.base;
                  physical_base = physical.base;
                  len = physical.len;
                  generation = w.next_generation;
                } in
                (record w { active = some mapping }, ok mapping)

abbrev pub same_mapping : TemporaryMapping → TemporaryMapping → Bool
same_mapping m n =
    m.virtual_base == n.virtual_base
    && m.physical_base == n.physical_base
    && m.len == n.len
    && m.generation == n.generation

abbrev pub is_active : TemporaryMapWindow → TemporaryMapping → Bool
is_active w mapping = elim w.active [ none ↦ false | some m ↦ same_mapping m mapping ]

-- The mapping is gone before the generation is counted, as in the source.
unfoldable pub revoke :
    TemporaryMapWindow → TemporaryMapping → TemporaryMapWindow × Result MapError (Unit {0})
revoke w mapping = attempt (refuse_if (not (is_active w mapping)) stale_generation) w λ _.
    let w' : TemporaryMapWindow = record w { active = none } in
    attempt (ok_or (checked_add w.next_generation 1) epoch_overflow) w'
      λ next. (record w' { next_generation = next }, ok tt)

pub data Call : Type 0 where
  opens : Capability → Capability → Call
  revokes : TemporaryMapping → Call

unfoldable pub after : TemporaryMapWindow → Call → TemporaryMapWindow
after w (opens window physical) = (map_window w window physical).0
after w (revokes m) = (revoke w m).0

unfoldable pub run : TemporaryMapWindow → List Call → TemporaryMapWindow
run w [] = w
run w (c ∷ cs) = run (after w c) cs

-- A mapping that is there carries the window's generation.
abbrev pub IsDated : TemporaryMapWindow → Type 0
IsDated w = (m : TemporaryMapping) → w.active ≡ some m → m.generation ≡ w.next_generation

after-IsDated : (w : TemporaryMapWindow) (c : Call) → IsDated w → IsDated (after w c)
unfolding after map_window revoke
after-IsDated w (opens window physical) d m h = ground (arith, d m)
after-IsDated w (revokes n) d m h = ground (arith, d m)

after-later : (w : TemporaryMapWindow) (c : Call) → w.next_generation ≤ (after w c).next_generation
unfolding after map_window revoke
after-later w (opens window physical) = ground arith
after-later w (revokes n) = ground arith

run-keeps :
    (w : TemporaryMapWindow) (cs : List Call)
    → IsDated w
    → IsDated (run w cs) × (w.next_generation ≤ (run w cs).next_generation)
unfolding run
run-keeps w [] d = (d, omega arith)
run-keeps w (c ∷ cs) d =
    let r = run-keeps (after w c) cs (after-IsDated w c d) in
    (r.0, omega (arith, after-later w c, r.1))

-- A new window carries the generation of what it maps, through any calls.
pub run-IsDated : (base len : ℕ) (cs : List Call) → IsDated (run (new_window base len) cs)
run-IsDated base len cs = (run-keeps (new_window base len) cs (λ m h. cc)).0

-- A mapping that was revoked from a window is not accepted again, through any later calls on it.
pub revoke_once :
    (w w' : TemporaryMapWindow) (m : TemporaryMapping) (cs : List Call)
    → IsDated w
    → revoke w m ≡ (w', ok tt)
    → (revoke (run w' cs) m).1 ≢ ok tt
unfolding revoke
revoke_once w w' m cs d h again = elim (Option-cases w.active) [
  | inl empty ↦ ground arith
  | inr (n, held) ↦
      let dated : n.generation ≡ w.next_generation = d n held in
      let counted : w'.next_generation ≡ w.next_generation + 1 = ground arith in
      let gone : w'.active ≡ none = ground arith in
      let same : n.generation ≡ m.generation = ground arith in
      let (late, more) = run-keeps w' cs (λ k q. cc) in
      elim (Option-cases (run w' cs).active) [
        | inl empty ↦ ground arith
        | inr (k, there) ↦ ground (arith, late k there)
      ]
]
