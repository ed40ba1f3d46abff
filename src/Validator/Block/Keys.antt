-- ===== src/Validator/Block/Keys.antt =====
-- The keys under which the statistics of the blocks are stored.
use eloan_peer.Prelude.{◌<◌, ◌≡◌, ◌++◌, refl, some, codes, ◌∙◌}
use mathlib.Core.Path.{subst}
use eloan_peer.Prelude.GoString.{GoString, str_eq_refl}
use eloan_peer.Version.{Height}
use eloan_peer.StateDb.{UpdateBatch, VersionedValue, get, insert2}
use eloan_peer.StateDb.Batch.{lookup2-insert2}
use eloan_peer.Validator.Block.{BlockStatistics, qscc, put_static, save_statistics, statistics_key}
use eloan_peer.Validator.Block.Runes.{max_rune, replacement, string_of_rune_large}

get-put_static :
    (key : GoString) (v : VersionedValue) (updates : UpdateBatch)
    → get qscc key (put_static key v updates) ≡ some v
unfolding put_static get insert2
get-put_static key v updates =
    lookup2-insert2 qscc key qscc key v updates.updates
    ∙ rw (str_eq_refl qscc, str_eq_refl key) refl

-- The statistics of every block whose number lies above 1114111, the last code point, are stored
-- under one key: the prefix and the replacement character, without the number.
pub save_statistics_large :
    (vh : Height) (buf : GoString) (b : BlockStatistics) (updates : UpdateBatch)
    → max_rune < b.number
    → get qscc
        (codes "BlockStatistics_" ++ replacement)
        (save_statistics (some vh) (some buf) b updates)
      ≡ some (record { value = some buf; version = some vh })
unfolding save_statistics
save_statistics_large vh buf b updates large =
    let v : VersionedValue = record { value = some buf; version = some vh } in
    subst
      (λ text.
        get qscc (codes "BlockStatistics_" ++ text) (save_statistics (some vh) (some buf) b updates)
        ≡ some v)
      (string_of_rune_large b.number large)
      (get-put_static (statistics_key b.number) v
        (put_static (codes "curBlockStatistics") v updates))
