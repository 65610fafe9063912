-- ===== src/Atomic/Model.antt =====
-- kernel/src/atomic.rs: the executable memory model, a trace of the events on all cells.
use bulla.Prelude.{
  ℕ, Bool, true, false, not, Option, none, some, List, Result, ok, refuse_if, ok_or, attempt,
  checked_add, add64, ◌&&◌, ◌||◌, [], ◌∷◌, ◌++◌, ◌==◌, if◌then◌else◌,
}
use bulla.Prelude.Map.{Map, get, insert, nat_key}
use bulla.Atomic.{
  AtomicOrdering, AtomicError, is_releasing, is_acquiring, relaxed, acquire, seq_cst, unknown_cell,
  duplicate_cell, illegal_load_ordering, illegal_store_ordering, illegal_fence_ordering,
  event_overflow,
}

pub data FenceKind : Type 0 where
  compiler hardware : FenceKind

pub data AtomicEventKind : Type 0 where
  loads stores read_modify_write : AtomicEventKind
  fences : FenceKind → AtomicEventKind

pub record AtomicEvent : Type 0 where
  pub id : ℕ
  pub cpu : ℕ
  pub cell : Option ℕ
  pub kind : AtomicEventKind
  pub ordering : AtomicOrdering
  pub value : ℕ
  pub reads_from : Option ℕ
  pub modification_order : Option ℕ
  pub sequentially_consistent_order : Option ℕ
  pub happens_after_release : Option ℕ

pub record MemoryCell : Type 0 where
  pub value : ℕ
  pub modification_order : ℕ
  pub last_write : ℕ
  pub last_write_ordering : AtomicOrdering

pub record AtomicMemoryModel : Type 0 where
  pub cells : Map ℕ MemoryCell
  pub events : List AtomicEvent
  pub next_event : ℕ
  pub next_sc : ℕ

abbrev pub new_model : AtomicMemoryModel
new_model = record { cells = []; events = []; next_event = 1; next_sc = 1 }

abbrev is_known {ℓ} : {V : Type ℓ} → ℕ → Map ℕ V → Bool
is_known k m = elim (get k m) [ none ↦ false | some _ ↦ true ]

abbrev pub fresh_cell : ℕ → MemoryCell
fresh_cell initial = record {
  value = initial;
  modification_order = 0;
  last_write = 0;
  last_write_ordering = relaxed;
}

-- The insertion comes before the test, as in the source.
unfoldable pub register :
    AtomicMemoryModel → ℕ → ℕ → AtomicMemoryModel × Result AtomicError (Unit {0})
register m cell initial = (
  record m { cells = insert cell (fresh_cell initial) m.cells },
  refuse_if (is_known cell m.cells) duplicate_cell,
)

abbrev pub is_seq_cst : AtomicOrdering → Bool
is_seq_cst seq_cst = true
is_seq_cst _ = false

unfoldable pub next_event_id : AtomicMemoryModel → AtomicMemoryModel × Result AtomicError ℕ
next_event_id m =
    attempt (ok_or (checked_add m.next_event 1) event_overflow) m
      λ next. (record m { next_event = next }, ok m.next_event)

unfoldable pub sc_index :
    AtomicMemoryModel → AtomicOrdering → AtomicMemoryModel × Result AtomicError (Option ℕ)
sc_index m ordering =
    if not (is_seq_cst ordering)
    then (m, ok none)
    else (attempt (ok_or (checked_add m.next_sc 1) event_overflow) m
        λ next. (record m { next_sc = next }, ok (some m.next_sc)))

-- `let event = self.next_event_id()?; let sc = self.sc_index(ordering)?;` and what follows.
unfoldable pub numbered {ℓ} :
    {A : Type ℓ}
    → AtomicMemoryModel
    → AtomicOrdering
    → (AtomicMemoryModel → ℕ → Option ℕ → AtomicMemoryModel × Result AtomicError A)
    → AtomicMemoryModel × Result AtomicError A
unfolding next_event_id sc_index
numbered m ordering k =
    let first = next_event_id m in
    attempt first.1 first.0 λ event.
      let second = sc_index first.0 ordering in attempt second.1 second.0 λ sc. k second.0 event sc

abbrev pub push : AtomicMemoryModel → AtomicEvent → AtomicMemoryModel
push m e = record m { events = m.events ++ (e ∷ []) }

abbrev pub written : ℕ → MemoryCell → ℕ → AtomicOrdering → ℕ → MemoryCell
written event state value ordering next = record {
  value = value;
  modification_order = next;
  last_write = event;
  last_write_ordering = ordering;
}

-- What `write_event` does once it has its numbers.
unfoldable pub record_write :
    ℕ
    → ℕ
    → ℕ
    → AtomicOrdering
    → AtomicEventKind
    → Option ℕ
    → AtomicMemoryModel
    → ℕ
    → Option ℕ
    → AtomicMemoryModel × Result AtomicError ℕ
record_write cpu cell value ordering kind reads_from n event sc =
    attempt (ok_or (get cell n.cells) unknown_cell) n λ state.
      attempt (ok_or (checked_add state.modification_order 1) event_overflow) n λ next.
        let e : AtomicEvent = record {
          id = event;
          cpu = cpu;
          cell = some cell;
          kind = kind;
          ordering = ordering;
          value = value;
          reads_from = reads_from;
          modification_order = some next;
          sequentially_consistent_order = sc;
          happens_after_release = none;
        } in
        (
          push (record n { cells = insert cell (written event state value ordering next) n.cells })
              e,
          ok event,
        )

unfoldable pub write_event :
    AtomicMemoryModel
    → ℕ
    → ℕ
    → ℕ
    → AtomicOrdering
    → AtomicEventKind
    → Option ℕ
    → AtomicMemoryModel × Result AtomicError ℕ
unfolding numbered record_write
write_event m cpu cell value ordering kind reads_from =
    numbered m ordering (record_write cpu cell value ordering kind reads_from)

unfoldable pub store :
    AtomicMemoryModel → ℕ → ℕ → ℕ → AtomicOrdering → AtomicMemoryModel × Result AtomicError ℕ
unfolding write_event
store m cpu cell value ordering =
    attempt (refuse_if (is_acquiring ordering) illegal_store_ordering) m
      λ _. write_event m cpu cell value ordering stores none

-- `matches!(ordering, Release | AcqRel | SeqCst)`
abbrev pub releases : AtomicOrdering → Bool
releases ordering = is_releasing ordering || is_seq_cst ordering

-- `last_write != 0`, as the edge it makes.
abbrev pub edge : MemoryCell → Option ℕ
edge state = if state.last_write == 0 then none else some state.last_write

-- The release that an acquiring load of this cell is ordered after.
abbrev pub release_edge : AtomicOrdering → MemoryCell → Option ℕ
release_edge acquire state = if releases state.last_write_ordering then edge state else none
release_edge seq_cst state = if releases state.last_write_ordering then edge state else none
release_edge _ state = none

abbrev pub load_event : ℕ → ℕ → AtomicOrdering → MemoryCell → ℕ → Option ℕ → AtomicEvent
load_event cpu cell ordering state event sc = record {
  id = event;
  cpu = cpu;
  cell = some cell;
  kind = loads;
  ordering = ordering;
  value = state.value;
  reads_from = edge state;
  modification_order = none;
  sequentially_consistent_order = sc;
  happens_after_release = release_edge ordering state;
}

unfoldable pub load :
    AtomicMemoryModel → ℕ → ℕ → AtomicOrdering → AtomicMemoryModel × Result AtomicError (ℕ × ℕ)
unfolding numbered
load m cpu cell ordering = attempt (refuse_if (is_releasing ordering) illegal_load_ordering) m λ _.
    attempt (ok_or (get cell m.cells) unknown_cell) m λ state.
      numbered m ordering λ n event sc.
        (push n (load_event cpu cell ordering state event sc), ok (state.value, event))

abbrev pub is_relaxed : AtomicOrdering → Bool
is_relaxed AtomicOrdering.relaxed = true
is_relaxed _ = false

abbrev pub fence_event : ℕ → FenceKind → AtomicOrdering → ℕ → Option ℕ → AtomicEvent
fence_event cpu kind ordering event sc = record {
  id = event;
  cpu = cpu;
  cell = none;
  kind = fences kind;
  ordering = ordering;
  value = 0;
  reads_from = none;
  modification_order = none;
  sequentially_consistent_order = sc;
  happens_after_release = none;
}

unfoldable pub fence :
    AtomicMemoryModel → ℕ → FenceKind → AtomicOrdering → AtomicMemoryModel × Result AtomicError ℕ
unfolding numbered
fence m cpu kind ordering = attempt (refuse_if (is_relaxed ordering) illegal_fence_ordering) m λ _.
    numbered m ordering λ n event sc. (push n (fence_event cpu kind ordering event sc), ok event)

-- `events.iter().rev().nth(1)`
unfoldable pub before_last {ℓ} : {A : Type ℓ} → List A → Option A
before_last [] = none
before_last (x ∷ []) = none
before_last (x ∷ y ∷ []) = some x
before_last (x ∷ y ∷ z ∷ xs) = before_last (y ∷ z ∷ xs)

-- `if let Some(last) = events.last_mut()`, with the change made to it.
unfoldable pub change_last {ℓ} : {A : Type ℓ} → (A → A) → List A → List A
change_last f [] = []
change_last f (x ∷ []) = f x ∷ []
change_last f (x ∷ y ∷ xs) = x ∷ change_last f (y ∷ xs)

abbrev pub has_id : Option ℕ → ℕ → Bool
has_id none k = false
has_id (some c) k = c == k

abbrev pub is_some {ℓ} : {A : Type ℓ} → Option A → Bool
is_some none = false
is_some (some _) = true

-- The event before the last one, if it wrote this cell.
unfoldable pub prior_write : List AtomicEvent → ℕ → Option ℕ
unfolding before_last
prior_write events cell = elim (before_last events) [
  | none ↦ none
  | some e ↦ if has_id e.cell cell && is_some e.modification_order then some e.id else none
]

-- `self.events.iter().any(…)` of `fetch_add`
unfoldable pub any_release : List AtomicEvent → ℕ → Bool
any_release [] id = false
any_release (e ∷ events) id = (e.id == id && releases e.ordering) || any_release events id

abbrev pub acquires : AtomicOrdering → Bool
acquires ordering = is_acquiring ordering || is_seq_cst ordering

unfoldable pub prior_release : List AtomicEvent → AtomicOrdering → Option ℕ → Option ℕ
unfolding any_release
prior_release events ordering none = none
prior_release events ordering (some id) =
    if acquires ordering && any_release events id then some id else none

abbrev pub linked : Option ℕ → Option ℕ → AtomicEvent → AtomicEvent
linked prior after e = record e { reads_from = prior; happens_after_release = after }

-- `previous` is read before the event is made; the links are set on the event afterwards.
unfoldable pub fetch_add :
    AtomicMemoryModel → ℕ → ℕ → ℕ → AtomicOrdering → AtomicMemoryModel × Result AtomicError (ℕ × ℕ)
unfolding write_event prior_write prior_release change_last
fetch_add m cpu cell value ordering = attempt (ok_or (get cell m.cells) unknown_cell) m λ state.
    let done = write_event m cpu cell (add64 state.value value) ordering read_modify_write none in
    attempt done.1 done.0 λ event.
      let n = done.0 in
      let prior = prior_write n.events cell in
      let after = prior_release n.events ordering prior in
      (record n { events = change_last (linked prior after) n.events }, ok (state.value, event))
