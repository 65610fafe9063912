-- ===== src/Frame/Fit.antt =====
-- The choice of a free run: where it starts, its alignment, and its room (kernel/src/frame.rs).
use native.Mathlib.Nat.{div-add-mod', mod-lt}
use mathlib.Core.Path.{subst}
use bulla.Prelude.{
  ℕ, suc, bit_and, ap, true, some, arith, Option-cases, u64_mod, is_power_of_two, inl, inr, ◌+◌,
  ◌-◌, ◌*◌, ◌/◌, ◌^◌, ◌≤◌, ◌<◌, ◌≡◌, ◌∙◌, [], ◌∷◌,
}
use bulla.Prelude.Map.{Map, get, nat_key}
use bulla.Prelude.Powers.{exponent, exponent_le, mask_lem, pow-add, pow-pos}
use bulla.Prelude.Ordered.{KeysAbove, get_below}
use bulla.Frame.{page_bytes, fit, Choice, first_fit}
use bulla.Frame.Cover.{IsRun, FreeRuns}

-- Rounding up to a multiple of a power of two, as the mask does it.
rounded :
    (base k alignment : ℕ)
    → alignment ≡ 2 ^ k
    → base + (alignment - 1) < u64_mod
    → alignment < u64_mod
    → (q : ℕ) × (bit_and (base + (alignment - 1)) (u64_mod - 1 - (alignment - 1)) ≡ q * alignment)
      × (base ≤ q * alignment)
      × (q * alignment < base + alignment)
rounded base k alignment e fits small =
    let top = base + (alignment - 1) in
    let pos : 0 < alignment = rw e (pow-pos k) in
    let mask : u64_mod - 1 - (alignment - 1) ≡ 2 ^ 64 - 2 ^ k = omega arith in
    let le : k ≤ 64 = exponent_le k 64 (rw (← e) small) in
    let q = top / alignment in
    let cut : bit_and top (u64_mod - 1 - (alignment - 1)) ≡ q * alignment =
      ap (bit_and top) mask ∙ mask_lem k 64 top le fits ∙ rw (← e) in
    (
      q,
      cut,
      omega (arith, div-add-mod' top alignment, mod-lt top pos),
      omega (arith, div-add-mod' top alignment, mod-lt top pos),
    )

-- What a chosen run satisfies: the pages asked for lie in it, from its aligned base on.
pub record Chosen (free : Map ℕ ℕ) (pages alignment : ℕ) (c : Choice) : Type 0 where
  pub stored : get c.base free ≡ some c.available
  pub offset : c.aligned ≡ c.base + c.prefix * page_bytes
  pub room : c.prefix + pages ≤ c.available
  pub multiple : (q : ℕ) × (c.aligned ≡ q * alignment)

abbrev choice : ℕ → ℕ → ℕ × ℕ → Choice
choice base available r = record { base = base; available = available; aligned = r.0; prefix = r.1 }

module _ (pages alignment_pages alignment : ℕ) (e : alignment ≡ alignment_pages * page_bytes)
    (power : is_power_of_two alignment_pages ≡ true) (small : alignment < u64_mod) where
  fit_lem :
      (base available : ℕ) (r : ℕ × ℕ)
      → IsRun base available
      → fit pages alignment base available ≡ some r
      → (r.0 ≡ base + r.1 * page_bytes)
        × (r.1 + pages ≤ available)
        × (base ≤ r.0)
        × ((q : ℕ) × (r.0 ≡ q * alignment))
  unfolding fit
  fit_lem base available r run h =
      let (k, p) = exponent alignment_pages power in
      let whole : alignment ≡ 2 ^ (12 + k) = rw (pow-add 12 k, ← p) (omega arith) in
      let top_fits : base + (alignment - 1) < u64_mod = ground arith in
      let (q, cut, low, high) = rounded base (12 + k) alignment whole top_fits small in
      let al : r.0 ≡ q * alignment = ground arith in
      let pre : r.1 ≡ (q * alignment - base) / page_bytes = ground arith in
      let pages_of : q * alignment ≡ q * alignment_pages * page_bytes = rw e (omega arith) in
      (omega (arith, run.aligned), ground arith, omega arith, (q, al))

  pub first_fit-Chosen :
      (b : ℕ) (free : Map ℕ ℕ) (c : Choice)
      → KeysAbove b free
      → FreeRuns free
      → first_fit pages alignment free ≡ some c
      → Chosen free pages alignment c
  unfolding first_fit get
  first_fit-Chosen b [] c a runs h = cc
  first_fit-Chosen b ((base, available) ∷ rest) c a runs h =
      elim (Option-cases (fit pages alignment base available)) [
        | inl no_fit ↦
            let ih =
              first_fit-Chosen (suc base) rest c a.1
                (λ j n g. runs j n (ground (arith, get_below (suc base) j rest a.1)))
                (ground arith) in
            record {
              stored = ground (arith, ih.stored, get_below (suc base) c.base rest a.1);
              offset = ih.offset;
              room = ih.room;
              multiple = ih.multiple;
            }
        | inr (r, fits) ↦
            let (offset, room, low, multiple) =
              fit_lem base available r (runs base available (ground arith)) fits in
            let same : choice base available r ≡ c = ground arith in
            subst (Chosen ((base, available) ∷ rest) pages alignment) same
              (record { stored = ground arith; offset = offset; room = room; multiple = multiple })
      ]
