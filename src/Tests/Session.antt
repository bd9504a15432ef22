-- ===== src/Tests/Session.antt =====
-- The theorems on opening and closing a store, and on the names of files, at concrete inputs.
use yabiir.Base.{◌≡◌, refl, false, none, some, [], ◌∷◌, arith}
use yabiir.Io.{full, part}
use yabiir.Io.After.{After}
use yabiir.Io.Disk.{World}
use yabiir.Datafile.Names.{data_path, hint_path, parse_data_file_id, parse_data_file_id-data_path}
use yabiir.Engine.{Engine, default_options}
use yabiir.Engine.Session.{open_engine, sync, holds_lock}
use yabiir.Engine.Session.Exclusive.{Whatever, open_engine-excludes}
use yabiir.Engine.Session.Fresh.{IsFresh, open_engine-IsFresh}
use yabiir.Engine.Session.Synced.{sync_calls, Synced, sync_lem}
use yabiir.Io.Calls.{calls_succeed, result_of}
use yabiir.Base.Map.{lookup}
use yabiir.Datafile.{ActiveFile}
use yabiir.Merge.Opened.{IsBackedStore, open_engine-IsBacked}
use yabiir.Tests.{toy_crc32, value_a}
use yabiir.Tests.Store.{engine_a}

parse_data_file_id-data_path_example :
    (parse_data_file_id (data_path 4000000000) ≡ some 4000000000)
    × (parse_data_file_id (hint_path 4000000000) ≡ none)
parse_data_file_id-data_path_example = parse_data_file_id-data_path 4000000000 (omega arith)

-- Two files, in no order, that no other handle has.
abbrev world_o : World
world_o = record {
  data_files = (9, value_a) ∷ (4, []) ∷ [];
  hint_files = [];
  plan = full ∷ full ∷ [];
}

open_engine-IsFresh_example :
    After
      (open_engine toy_crc32 default_options false world_o)
      (λ e _. IsFresh world_o false e)
      Whatever
open_engine-IsFresh_example =
    open_engine-IsFresh toy_crc32 default_options false world_o (omega arith, (omega arith, tt))

-- Two bytes wait in the buffer of the active file.
abbrev file_s : ActiveFile
file_s = record { file_id = 4; buffer = 8 ∷ 9 ∷ []; offset = 5 }

abbrev engine_s : Engine
engine_s = record engine_a {
  world = record { data_files = (4, value_a) ∷ []; hint_files = []; plan = full ∷ part 0 ∷ [] };
  active = some file_s;
}

sync_lem_example :
    ((sync engine_s).0 ≡ result_of (calls_succeed (sync_calls file_s) engine_s.world.plan))
    × After (sync engine_s) (λ _ e. Synced file_s value_a engine_s e) (λ e. Unit {0})
unfolding lookup
sync_lem_example = sync_lem engine_s file_s value_a refl refl

open_engine-excludes_example :
    After
      (open_engine toy_crc32 default_options false world_o)
      (λ e _.
        After (open_engine toy_crc32 default_options (holds_lock e) world_o) (λ _ _. ⊥) Whatever)
      Whatever
open_engine-excludes_example =
    open_engine-excludes toy_crc32 default_options default_options false world_o world_o refl refl

open_engine-IsBacked_example :
    After
      (open_engine toy_crc32 default_options false world_o)
      (λ e _. IsBackedStore toy_crc32 e)
      Whatever
open_engine-IsBacked_example = open_engine-IsBacked toy_crc32 default_options false world_o refl
