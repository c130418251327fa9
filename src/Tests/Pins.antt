-- ===== src/Tests/Pins.antt =====
-- The pins of a server at concrete lists of tools.
use mcpgw.Base.{ℕ, ◌≡◌, refl, ◌↔◌, none, some, List, [], ◌∷◌, In, inl, ok, if◌then◌else◌}
use mcpgw.Base.Bytes.{Text, codes, text_eq, text_cmp}
use mcpgw.Base.Map.{Map, get}
use mcpgw.Pins.{
  ToolPin, ToolFingerprint, DriftEvent, PinFile, PinStore, path, read, io, changed, added, removed,
  compare, seen_of, observe, same_shape, Shape-discrete,
}
use mcpgw.Pins.Compare.{expected, compare_iff}
use mcpgw.Pins.Kept.{observe-without_drift, without_drift}
use mcpgw.Pins.Observe.{observe-again}
use mcpgw.Pins.Noticed.{observe-Dated, Dated}

abbrev tool : Text → Text → ℕ → ToolFingerprint
tool name hash desc_len = record { name = name; hash = hash; desc_len = desc_len }

abbrev pinned_tools : Map ToolPin
pinned_tools =
    (codes "echo", record { hash = codes "aa"; desc_len = 21 })
    ∷ (codes "gone", record { hash = codes "bb"; desc_len = 5 })
    ∷ []

abbrev served : List ToolFingerprint
served = tool (codes "new") (codes "cc") 7 ∷ tool (codes "echo") (codes "dd") 384 ∷ []

abbrev echo_changed : ℕ → DriftEvent
echo_changed at = record {
  tool = codes "echo";
  change = changed;
  at = at;
  desc_len_before = some 21;
  desc_len_after = some 384;
}

abbrev gone_removed : ℕ → DriftEvent
gone_removed at = record {
  tool = codes "gone";
  change = removed;
  at = at;
  desc_len_before = some 5;
  desc_len_after = none;
}

abbrev new_added : ℕ → DriftEvent
new_added at = record {
  tool = codes "new";
  change = added;
  at = at;
  desc_len_before = none;
  desc_len_after = some 7;
}

abbrev file : PinFile
file = record {
  version = 1;
  server = codes "s";
  pinned_at = 3;
  tools = pinned_tools;
  drift = echo_changed 4 ∷ [];
}

compare_runs : compare pinned_tools served 9 ≡ echo_changed 9 ∷ gone_removed 9 ∷ new_added 9 ∷ []
unfolding compare
compare_runs = refl

-- The store that holds one server's file.
abbrev holding : PinStore
holding name = if text_eq (codes "s.json") name then ok (some file) else ok none

-- The change was on file already and keeps its time; the other two are new.
observe_runs :
    (observe none (codes "s") served 9 holding).0
    ≡ ok (echo_changed 4 ∷ gone_removed 9 ∷ new_added 9 ∷ [])
unfolding observe same_shape Shape-discrete text_cmp
observe_runs = refl

-- A pin file that was copied from another server's: the drift is written to that server's file, and
-- is reported again.
abbrev copied : PinStore
copied name = if text_eq (codes "t.json") name then ok (some file) else ok none

copied_runs :
    ((observe none (codes "t") served 9 (observe none (codes "t") served 9 copied).1).0
      ≡ ok (echo_changed 4 ∷ gone_removed 9 ∷ new_added 9 ∷ []))
    × (read (codes "t") (observe none (codes "t") served 9 copied).1 ≡ ok (some file))
    × (read (codes "s") (observe none (codes "t") served 9 copied).1
        ≡ ok (some (record file { drift = echo_changed 4 ∷ gone_removed 9 ∷ new_added 9 ∷ [] })))
unfolding observe read same_shape Shape-discrete text_cmp
copied_runs = (refl, refl, refl)

compare_iff_example : In (gone_removed 9) (compare pinned_tools served 9) ↔ (
    expected
      (codes "gone")
      9
      (get (codes "gone") pinned_tools)
      (get (codes "gone") (seen_of served))
    ≡ some (gone_removed 9))
unfolding text_cmp
compare_iff_example = compare_iff pinned_tools served 9 (gone_removed 9) ((refl, tt), (tt, tt))

observe-without_drift_example :
    (without_drift (read (codes "s") (observe (some io) (codes "s") served 9 holding).1)
      ≡ without_drift (read (codes "s") holding))
    × ((observe (some io) (codes "s") served 9 holding).1 (codes "t.json") ≡ (
        if text_eq (path (codes "s")) (codes "t.json")
        then read (codes "s") (observe (some io) (codes "s") served 9 holding).1
        else holding (codes "t.json")))
unfolding read text_eq
observe-without_drift_example =
    observe-without_drift (codes "s") served (some io) 9 file holding (codes "t.json") refl refl

observe-again_example :
    observe none (codes "s") served 12 (observe none (codes "s") served 9 holding).1
    ≡ (ok [], (observe none (codes "s") served 9 holding).1)
unfolding read text_eq
observe-again_example = observe-again (codes "s") served none 9 12 holding (some file) refl refl

observe-Dated_example : Dated file.drift 9 (echo_changed 4)
unfolding observe read same_shape Shape-discrete
observe-Dated_example =
    observe-Dated none (codes "s") served 9 holding file (echo_changed 4) refl (inl refl)
