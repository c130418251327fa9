-- ===== src/Reload/Once.antt =====
-- A file is read once for every change.
use mcpgw.Base.{
  ◌≡◌, refl, sym, ap, ◌∙◌, Bool, true, false, not, ◌&&◌, if◌then◌else◌, Result, ok, err, decided,
}
use mcpgw.Base.Bytes.{Text}
use mcpgw.Reload.{Config, Reloader, Reading, Stamp-discrete, apply_config, reload, changed, poll}

unchanged : (r : Reloader) → changed r r.seen ≡ false
unfolding changed
unchanged r = ap not ((decided (Stamp-discrete r.seen r.seen)).1 refl)

reload-seen : (r : Reloader) (reading : Reading) → (reload r reading).1.seen ≡ reading.stamp
unfolding reload apply_config
reload-seen r reading = by reading.loaded
  where
    marked : Reloader
    marked = record r { seen = reading.stamp }

    loaded_to : Result Text Config → Result Text Reloader × Reloader
    loaded_to l = elim l [
      | err why ↦ (err why, marked)
      | ok config ↦ (ok (apply_config marked config), apply_config marked config)
    ]

    by : (l : Result Text Config) → (loaded_to l).1.seen ≡ reading.stamp
    by (err why) = refl
    by (ok config) = refl

-- A poll that no signal forces and that finds the stamp of the poll before it changes nothing,
-- whatever the file then holds, and also where it did not parse at the poll before.
pub poll_twice :
    (r : Reloader) (forced : Bool) (reading later : Reading)
    → later.stamp ≡ reading.stamp
    → poll (poll r (forced, reading)) (false, later) ≡ poll r (forced, reading)
unfolding poll
poll_twice r forced reading later same = by (not forced && not (changed r reading.stamp)) refl
  where
    first : Bool → Reloader
    first b = if b then r else (reload r reading).1

    again : Bool → Reloader → Reloader
    again b x = if not b then x else (reload x later).1

    idle : (b : Bool) (x : Reloader) → b ≡ false → again b x ≡ x
    idle false x e = refl
    idle true x e = cc

    calm : (f b : Bool) → (not f && not b) ≡ true → b ≡ false
    calm f false e = refl
    calm true true e = cc
    calm false true e = cc

    by :
        (b : Bool)
        → (not forced && not (changed r reading.stamp)) ≡ b
        → again (changed (first b) later.stamp) (first b) ≡ first b
    by true h =
        idle (changed r later.stamp) r
          (ap (changed r) same ∙ calm forced (changed r reading.stamp) h)
    by false h = idle (changed (reload r reading).1 later.stamp) (reload r reading).1 (
        ap (changed (reload r reading).1) (same ∙ sym (reload-seen r reading))
        ∙ unchanged (reload r reading).1)
