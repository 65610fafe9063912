-- ===== src/Irq.antt =====
-- kernel/src/irq.rs: local interrupt state, routes and interrupts in service.
pub mod Calls
pub mod Tokens
use bulla.Prelude.{
  ℕ, Bool, true, false, not, Option, none, some, arith, ltb, Result, ok, err, refuse_if, ok_or,
  attempt, checked_add, ◌≡◌, ◌↔◌, ◌&&◌, ◌||◌, [], ◌==◌, ◌>>=◌, ◌>>◌,
}
use bulla.Prelude.Map.{Key, Map, get, insert, remove, nat_key}
use bulla.Capability.{Capability, CapabilityKind, kind_eq, Rights, contains, control, route_right}
use bulla.Smp.{CpuId}

pub record IrqStateToken : Type 0 where
  pub cpu : CpuId
  pub generation : ℕ
  pub was_enabled : Bool

pub record LocalIrqState : Type 0 where
  pub enabled : Bool
  pub generation : ℕ
  pub outstanding : Bool

pub record IrqRoute : Type 0 where
  pub cpu : CpuId
  pub vector : ℕ
  pub masked : Bool

pub data IrqError : Type 0 where
  wrong_capability missing_rights unknown_cpu nested_disable foreign_cpu stale_generation : IrqError
  already_restored generation_overflow invalid_vector unknown_route duplicate_route : IrqError
  spurious_acknowledgement : IrqError

abbrev pub ServiceKey : Type 0
ServiceKey = CpuId × ℕ

abbrev service_eq : ServiceKey → ServiceKey → Bool
service_eq a b = a.0 == b.0 && a.1 == b.1

abbrev service_lt : ServiceKey → ServiceKey → Bool
service_lt a b = ltb a.0 b.0 || (a.0 == b.0 && ltb a.1 b.1)

pub service_eq_iff : (a b : ServiceKey) → (service_eq a b ≡ true) ↔ (a ≡ b)
service_eq_iff (c, v) (d, w) = (λ h. ground arith, λ h. ground arith)

instance abbrev pub service_key : Key ServiceKey
service_key = record { eq = service_eq; lt = service_lt; eq_iff = service_eq_iff }

pub record IrqController : Type 0 where
  pub locals : Map ℕ LocalIrqState
  pub routes : Map ℕ IrqRoute
  pub in_service : Map ServiceKey Bool

abbrev pub new_controller : IrqController
new_controller = record { locals = []; routes = []; in_service = [] }

unfoldable pub require : Capability → CapabilityKind → Rights → Result IrqError (Unit {0})
require c kind rights = do
  refuse_if (not (kind_eq c.kind kind)) wrong_capability
  refuse_if (not (contains c.rights rights)) missing_rights

abbrev pub fresh_local : LocalIrqState
fresh_local = record { enabled = true; generation = 0; outstanding = false }

-- The insertion comes before the test, as in the source.
unfoldable pub add_cpu : IrqController → CpuId → IrqController × Result IrqError (Unit {0})
add_cpu s cpu =
    let s' : IrqController = record s { locals = insert cpu fresh_local s.locals } in
    elim (get cpu s.locals) [ none ↦ (s', ok tt) | some _ ↦ (s', err unknown_cpu) ]

unfoldable pub save_disable :
    IrqController → CpuId → Capability → IrqController × Result IrqError IrqStateToken
unfolding require
save_disable s cpu c = attempt (require c CapabilityKind.cpu_local control) s λ _.
    attempt (ok_or (get cpu s.locals) unknown_cpu) s λ state.
      attempt (refuse_if state.outstanding nested_disable) s λ _.
        attempt (ok_or (checked_add state.generation 1) generation_overflow) s λ next.
          let state' : LocalIrqState = record {
            enabled = false;
            generation = next;
            outstanding = true;
          } in
          (
            record s { locals = insert cpu state' s.locals },
            ok (record { cpu = cpu; generation = next; was_enabled = state.enabled }),
          )

unfoldable pub restore :
    IrqController → CpuId → Capability → IrqStateToken → IrqController × Result IrqError (Unit {0})
unfolding require
restore s cpu c token = attempt (require c CapabilityKind.cpu_local control) s λ _.
    attempt (refuse_if (not (token.cpu == cpu)) foreign_cpu) s λ _.
      attempt (ok_or (get cpu s.locals) unknown_cpu) s λ state.
        attempt (refuse_if (not (token.generation == state.generation)) stale_generation) s λ _.
          attempt (refuse_if (not state.outstanding) already_restored) s λ _.
            let state' : LocalIrqState = record state {
              enabled = token.was_enabled;
              outstanding = false;
            } in
            (record s { locals = insert cpu state' s.locals }, ok tt)

abbrev is_known {ℓ} : {V : Type ℓ} → ℕ → Map ℕ V → Bool
is_known k m = elim (get k m) [ none ↦ false | some _ ↦ true ]

unfoldable pub route :
    IrqController → Capability → ℕ → CpuId → IrqController × Result IrqError (Unit {0})
unfolding require
route s c vector cpu = attempt (require c CapabilityKind.irq route_right) s λ _.
    attempt (refuse_if (ltb vector 32) invalid_vector) s λ _.
      attempt (refuse_if (not (is_known cpu s.locals)) unknown_cpu) s λ _.
        let r : IrqRoute = record { cpu = cpu; vector = vector; masked = false } in
        let s' : IrqController = record s { routes = insert vector r s.routes } in
        elim (get vector s.routes) [ none ↦ (s', ok tt) | some _ ↦ (s', err duplicate_route) ]

unfoldable pub set_masked : IrqController → ℕ → Bool → IrqController × Result IrqError (Unit {0})
set_masked s vector masked =
    attempt (ok_or (get vector s.routes) unknown_route) s
      λ r. (record s { routes = insert vector (record r { masked = masked }) s.routes }, ok tt)

unfoldable pub deliver : IrqController → ℕ → IrqController × Result IrqError CpuId
deliver s vector = attempt (ok_or (get vector s.routes) unknown_route) s λ r.
    attempt (refuse_if r.masked unknown_route) s
      λ _. (record s { in_service = insert (r.cpu, vector) true s.in_service }, ok r.cpu)

-- The removal comes before the test, as in the source.
unfoldable pub end_of_interrupt :
    IrqController → CpuId → ℕ → IrqController × Result IrqError (Unit {0})
end_of_interrupt s cpu vector =
    let s' : IrqController = record s { in_service = remove (cpu, vector) s.in_service } in
    elim (get (cpu, vector) s.in_service) [
      | some true ↦ (s', ok tt)
      | _ ↦ (s', err spurious_acknowledgement)
    ]

abbrev pub interrupts_enabled : IrqController → CpuId → Option Bool
interrupts_enabled s cpu = elim (get cpu s.locals) [ none ↦ none | some state ↦ some state.enabled ]
