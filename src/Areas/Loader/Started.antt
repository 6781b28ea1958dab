-- ===== src/Areas/Loader/Started.antt =====
-- A loader of areas/loader.go from its start on.
use fletchling.Prelude.{ℕ, ◌≡◌, Bool, Option, List, String}
use fletchling.Prelude.Float.{Floats}
use fletchling.Geo.{Feature}
use fletchling.Geo.Files.{Point, GeofencesFileEntry}
use fletchling.Areas.Loader.{Disk, AreasLoader, Areas}
use fletchling.Areas.Loader.Served.{Loading, Worlds, IsServed, Reach, Reach-IsServed}
use fletchling.Areas.Config.{Config, Url, ok, new_areas_loader}
use fletchling.Areas.Config.Sources.{OneSource, new_areas_loader-OneSource}

module _ (F : Floats) (collection : List ℕ → Option (Option (List (Feature (List (Point F))))))
    (geofences : List ℕ → Option (List (GeofencesFileEntry F))) (parse : String → Option Url)
    (opens : String → Bool) where
  -- A loader that NewAreasLoader makes reads either the file that is configured, which opens,
  -- with no address configured, or a project of Koji, with an address and no file configured; and
  -- after any reloads and questions that do not panic, whatever Koji and the file answered at
  -- each, it serves the areas of before, or all the areas of one good answer that this source
  -- gave at one of these calls, and the disk is as it was, whatever file is configured for the
  -- cache.
  pub new_areas_loader-IsServed :
      (given : Config) (loader : AreasLoader (List (Point F)))
      (disk : Disk (Areas F collection geofences)) (s : Loading F collection geofences)
      (worlds : Worlds F collection geofences)
      → new_areas_loader parse opens (List (Point F)) given ≡ ok loader
      → Reach F collection geofences (loader, disk) worlds s
      → OneSource parse opens (List (Point F)) given loader
        × IsServed F collection geofences worlds (loader, disk) s
  new_areas_loader-IsServed given loader disk s worlds made way =
      let ((_, uncached, _), source) =
        new_areas_loader-OneSource parse opens (List (Point F)) given loader made in
      (source, Reach-IsServed F collection geofences (loader, disk) s worlds uncached way)
