-- ===== src/Chart/Cache.antt =====
-- `PathCache` of crates/pulseon-chart-core/src/interaction.rs: the latest projected path of each
-- series. The map is an association list; an entry is replaced when it is inserted again.
pub mod Coherent
use pulseon.Base.{
  get_entry, remove_entry, insert_entry, get_entry-insert_same, get_entry-insert_other, ℕ, Bool,
  true, false, ◌&&◌, ◌==◌, Option, none, some, Result, ok, err, List, [], ◌∷◌, Text, text_eq,
  length, if◌then◌else◌,
}
use pulseon.Float.{F64}
use pulseon.Float.Math.{F64Math}
use pulseon.Chart.Range.{ChartError, Viewport, CanvasSize}
use pulseon.Chart.Series.{Series, SeriesId}
use pulseon.Chart.Path.{ScreenPoint, build_path}

pub record PathCacheKey : Type 0 where
  pub revision : ℕ
  pub viewport_bits : List ℕ
  pub canvas_bits : List ℕ

-- `==` on keys.
unfoldable pub key_eq : PathCacheKey → PathCacheKey → Bool
unfolding text_eq
key_eq a b =
    a.revision == b.revision
    && text_eq a.viewport_bits b.viewport_bits
    && text_eq a.canvas_bits b.canvas_bits

abbrev pub CachedPath : Type 0 → Type 0
CachedPath W = PathCacheKey × List (ScreenPoint W)

pub record PathCache (W : Type 0) : Type 0 where
  pub entries : List (SeriesId × CachedPath W)

module _ {W : Type 0} ⦃d : F64 W⦄ ⦃m : F64Math W⦄ where
  abbrev pub path_cache_key : ℕ → Viewport W → CanvasSize W → PathCacheKey
  path_cache_key revision viewport canvas = record {
    revision = revision;
    viewport_bits =
        m.to_bits viewport.x.start
        ∷ m.to_bits viewport.x.end
        ∷ m.to_bits viewport.y.start
        ∷ m.to_bits viewport.y.end
        ∷ [];
    canvas_bits = m.to_bits canvas.width ∷ m.to_bits canvas.height ∷ [];
  }

  -- The projected path, put under its series' identifier.
  unfoldable pub project_into :
      SeriesId
      → PathCacheKey
      → Option (Result ChartError (List (ScreenPoint W)))
      → PathCache W
      → Option (Result ChartError (List (ScreenPoint W)) × PathCache W)
  unfolding remove_entry
  project_into id key none cache = none
  project_into id key (some (err e)) cache = some (err e, cache)
  project_into id key (some (ok path)) cache =
      some (ok path, record { entries = insert_entry id (key, path) cache.entries })

  -- The path and the cache after the call; `none` where building the path panics.
  unfoldable pub path_for :
      Series W
      → (revision : ℕ) → Viewport W
      → CanvasSize W
      → PathCache W
      → Option (Result ChartError (List (ScreenPoint W)) × PathCache W)
  unfolding key_eq get_entry project_into build_path
  path_for series revision viewport canvas cache =
      let key = path_cache_key revision viewport canvas in
      let built = project_into series.id key (build_path series viewport canvas) cache in
      elim (get_entry series.id cache.entries) [
        | none ↦ built
        | some (cached_key, path) ↦ if key_eq cached_key key then some (ok path, cache) else built
      ]

  unfoldable pub invalidate_series : SeriesId → PathCache W → PathCache W
  unfolding remove_entry
  invalidate_series id cache = record { entries = remove_entry id cache.entries }

  unfoldable pub clear_cache : PathCache W → PathCache W
  clear_cache cache = record { entries = [] }

  abbrev pub cache_len : PathCache W → ℕ
  cache_len cache = length cache.entries
