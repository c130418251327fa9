-- ===== src/Pins.antt =====
-- crates/core/src/pins.rs: what a server's tools were when they were pinned, and what has drifted.
-- A hash is an opaque text. The store is a directory: by the name of a file, what a read of it
-- gives. The names of servers that config accepts are plain file names, so that two names are two
-- files; a pin file may name another server than the one whose file it stands in.
pub mod Sorting
pub mod Loops
pub mod Compare
pub mod Carried
pub mod Kept
pub mod Observe
pub mod Noticed
use mathlib.Core.Logic.{ite}
use native.Mathlib.Decide.{ℕ_discrete}
use mcpgw.Base.{
  ℕ, Bool, true, false, not, ◌&&◌, Option, none, some, List, [], ◌∷◌, ◌++◌, ◌==◌, ltb, is_empty,
  find, length, map, if◌then◌else◌, Result, ok, err, Ordering,
}
use mcpgw.Base.Bytes.{Text, codes, text_eq, text_cmp}
use mcpgw.Base.Map.{Map, get, contains_key, collect}

abbrev pub version : ℕ
version = 1

pub record ToolPin : Type 0 where
  pub hash : Text
  pub desc_len : ℕ

pub data Change : Type 0 where
  changed added removed : Change

pub record DriftEvent : Type 0 where
  pub tool : Text
  pub change : Change
  pub at : ℕ
  pub desc_len_before : Option ℕ
  pub desc_len_after : Option ℕ

pub record PinFile : Type 0 where
  pub version : ℕ
  pub server : Text
  pub pinned_at : ℕ
  pub tools : Map ToolPin
  pub drift : List DriftEvent

pub record ToolFingerprint : Type 0 where
  pub name : Text
  pub hash : Text
  pub desc_len : ℕ

-- The event without its time.
pub record Shape : Type 0 where
  pub tool : Text
  pub change : Change
  pub before : Option ℕ
  pub after : Option ℕ

abbrev pub shape : DriftEvent → Shape
shape e = record {
  tool = e.tool;
  change = e.change;
  before = e.desc_len_before;
  after = e.desc_len_after;
}

unfoldable pub Shape-discrete : Discrete Shape
unfolding ℕ_discrete
Shape-discrete = hlevel ℕ_discrete

unfoldable pub same_shape : DriftEvent → DriftEvent → Bool
same_shape a b = ite (Shape-discrete (shape a) (shape b)) true false

-- One turn of the first loop of `compare`, for a tool of the current list.
unfoldable pub listed_event : Text → ToolFingerprint → ℕ → Option ToolPin → Option DriftEvent
unfolding text_eq
listed_event name tool at none = some (record {
  tool = name;
  change = added;
  at = at;
  desc_len_before = none;
  desc_len_after = some tool.desc_len;
})
listed_event name tool at (some pin) =
    if text_eq pin.hash tool.hash
    then none
    else some (record {
      tool = name;
      change = changed;
      at = at;
      desc_len_before = some pin.desc_len;
      desc_len_after = some tool.desc_len;
    })

-- One turn of the second loop, for a pinned tool.
unfoldable pub pinned_event : Text → ToolPin → ℕ → Bool → Option DriftEvent
pinned_event name pin at true = none
pinned_event name pin at false = some (record {
  tool = name;
  change = removed;
  at = at;
  desc_len_before = some pin.desc_len;
  desc_len_after = none;
})

abbrev pub push : Option DriftEvent → List DriftEvent → List DriftEvent
push none events = events
push (some e) events = e ∷ events

unfoldable pub listed_events : Map ToolPin → ℕ → Map ToolFingerprint → List DriftEvent
unfolding listed_event get
listed_events pinned at [] = []
listed_events pinned at ((name, tool) ∷ seen) =
    push (listed_event name tool at (get name pinned)) (listed_events pinned at seen)

unfoldable pub pinned_events : Map ToolFingerprint → ℕ → Map ToolPin → List DriftEvent
unfolding pinned_event contains_key
pinned_events seen at [] = []
pinned_events seen at ((name, pin) ∷ pinned) =
    push (pinned_event name pin at (contains_key name seen)) (pinned_events seen at pinned)

-- slice::sort_by, stable, on the tool names.
abbrev pub place :
    Ordering → DriftEvent → DriftEvent → List DriftEvent → List DriftEvent → List DriftEvent
place Ordering.gt e f rest later = f ∷ later
place _ e f rest later = e ∷ f ∷ rest

unfoldable pub sort_in : DriftEvent → List DriftEvent → List DriftEvent
unfolding text_cmp
sort_in e [] = e ∷ []
sort_in e (f ∷ rest) = place (text_cmp e.tool f.tool) e f rest (sort_in e rest)

unfoldable pub sort_by_tool : List DriftEvent → List DriftEvent
unfolding sort_in
sort_by_tool [] = []
sort_by_tool (e ∷ rest) = sort_in e (sort_by_tool rest)

abbrev pub named : ToolFingerprint → Text × ToolFingerprint
named tool = (tool.name, tool)

unfoldable pub seen_of : List ToolFingerprint → Map ToolFingerprint
unfolding collect
seen_of current = collect (map named current)

unfoldable pub compare : Map ToolPin → List ToolFingerprint → ℕ → List DriftEvent
unfolding listed_events pinned_events sort_by_tool seen_of
compare pinned current at =
    let seen = seen_of current in
    sort_by_tool (listed_events pinned at seen ++ pinned_events seen at pinned)

-- How an operation on the pin file fails.
pub data Error : Type 0 where
  io pin_parse : Error

-- What a read of one file gives: it is unusable, absent or there.
abbrev pub Disk : Type 0
Disk = Result Error (Option PinFile)

-- The directory, by the names of its files.
abbrev pub PinStore : Type 0
PinStore = Text → Disk

-- PinStore::path, in the store's directory.
unfoldable pub path : Text → Text
path server = server ++ codes ".json"

-- PinStore::read
unfoldable pub read : Text → PinStore → Disk
unfolding path
read server store = store (path server)

abbrev put_file : Text → Disk → PinStore → PinStore
put_file name disk store at = if text_eq name at then disk else store at

-- PinStore::write, to the file of the server that the pin file names: the new file is there, or the
-- failure leaves the old one.
unfoldable pub write : Option Error → PinFile → PinStore → Result Error (Unit {0}) × PinStore
unfolding path text_eq
write none file store = (ok tt, put_file (path file.server) (ok (some file)) store)
write (some e) file store = (err e, store)

abbrev pub pin_of : ToolFingerprint → Text × ToolPin
pin_of tool = (tool.name, record { hash = tool.hash; desc_len = tool.desc_len })

unfoldable pub pin_file : Text → List ToolFingerprint → ℕ → PinFile
unfolding collect
pin_file server tools now = record {
  version = version;
  server = server;
  pinned_at = now;
  tools = collect (map pin_of tools);
  drift = [];
}

-- PinStore::pin
abbrev pub then_file :
    PinFile → Result Error (Unit {0}) × PinStore → Result Error PinFile × PinStore
then_file file (ok u, store) = (ok file, store)
then_file file (err e, store) = (err e, store)

unfoldable pub pin :
    Option Error → Text → List ToolFingerprint → ℕ → PinStore → Result Error PinFile × PinStore
unfolding pin_file write
pin fault server tools now store =
    let file = pin_file server tools now in then_file file (write fault file store)

unfoldable pub all_same : List DriftEvent → List DriftEvent → Bool
all_same [] old = true
all_same (e ∷ events) [] = true
all_same (e ∷ events) (f ∷ old) = same_shape e f && all_same events old

unfoldable pub unchanged : List DriftEvent → List DriftEvent → Bool
unfolding all_same
unchanged events old = length events == length old && all_same events old

abbrev restamp : DriftEvent → Option DriftEvent → DriftEvent
restamp e none = e
restamp e (some old) = record e { at = old.at }

unfoldable pub carry_over : List DriftEvent → List DriftEvent → List DriftEvent
carry_over old [] = []
carry_over old (e ∷ events) = restamp e (find (λ f. same_shape f e) old) ∷ carry_over old events

abbrev pub report :
    List DriftEvent → Result Error (Unit {0}) × PinStore → Result Error (List DriftEvent) × PinStore
report events (ok u, store) = (ok events, store)
report events (err e, store) = (err e, store)

abbrev forget : Result Error PinFile × PinStore → Result Error (List DriftEvent) × PinStore
forget (ok file, store) = (ok [], store)
forget (err e, store) = (err e, store)

abbrev pub against :
    Option Error → PinFile → List DriftEvent → PinStore → Result Error (List DriftEvent) × PinStore
against fault existing events store =
    if unchanged events existing.drift
    then (ok [], store)
    else let carried = carry_over existing.drift events in
      report carried (write fault (record existing { drift = carried }) store)

-- What observe does with what it has read.
unfoldable pub observed :
    Option Error
    → Text
    → List ToolFingerprint
    → ℕ
    → PinStore
    → Disk
    → Result Error (List DriftEvent) × PinStore
unfolding pin compare unchanged carry_over
observed fault server tools now store (err e) = (err e, store)
observed fault server tools now store (ok none) = forget (pin fault server tools now store)
observed fault server tools now store (ok (some existing)) =
    if ltb version existing.version
    then (ok [], store)
    else against fault existing (compare existing.tools tools now) store

-- PinStore::observe, under its gate.
unfoldable pub observe :
    Option Error
    → Text
    → List ToolFingerprint
    → ℕ
    → PinStore
    → Result Error (List DriftEvent) × PinStore
unfolding read observed
observe fault server tools now store = observed fault server tools now store (read server store)
