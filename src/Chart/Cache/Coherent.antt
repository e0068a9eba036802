-- ===== src/Chart/Cache/Coherent.antt =====
-- The path cache against building every path anew.
use pulseon.Base.{
  get_entry, insert_entry, get_entry-insert_same, get_entry-insert_other, ℕ, ◌≡◌, inl, inr, refl,
  sym, ap, ◌∙◌, true, Option, none, some, Result, ok, err, List, text_eq, text_eq_iff, arith,
  Bool-cases, Option-cases,
}
use pulseon.Float.{F64}
use pulseon.Float.Math.{F64Math, IsIeeeMath}
use pulseon.Chart.Range.{ChartError, AxisRange, Viewport, CanvasSize}
use pulseon.Chart.Series.{Series, SeriesId}
use pulseon.Chart.Path.{ScreenPoint, build_path}
use pulseon.Chart.Brush.{map_some}
use pulseon.Chart.Cache.{PathCacheKey, key_eq, PathCache, path_cache_key, project_into, path_for}

key_eq-true : (a b : PathCacheKey) → key_eq a b ≡ true → a ≡ b
unfolding key_eq
key_eq-true a b h =
    let revision : a.revision ≡ b.revision = ground (arith, h) in
    let viewport : text_eq a.viewport_bits b.viewport_bits ≡ true = ground (arith, h) in
    let canvas : text_eq a.canvas_bits b.canvas_bits ≡ true = ground (arith, h) in
    let viewport_same = (text_eq_iff a.viewport_bits b.viewport_bits).0 viewport in
    let canvas_same = (text_eq_iff a.canvas_bits b.canvas_bits).0 canvas in cc

same_entry {ℓ κ} :
    {A : Type ℓ} {B : Type κ} (p q : A × B) → some p ≡ some q → (p.0 ≡ q.0) × (p.1 ≡ q.1)
same_entry p q h = let same : p ≡ q = cc in (ap (λ r. r.0) same, ap (λ r. r.1) same)

module _ {W : Type 0} ⦃d : F64 W⦄ ⦃m : F64Math W⦄ (series_at : SeriesId → ℕ → Series W) where
  -- Every cached path is the one that its series at its revision has, in the viewport and the
  -- canvas of its key.
  abbrev pub IsCoherent : PathCache W → Type 0
  IsCoherent cache =
      (id : SeriesId) (key : PathCacheKey) (path : List (ScreenPoint W)) (viewport : Viewport W)
      (canvas : CanvasSize W)
      → get_entry id cache.entries ≡ some (key, path)
      → path_cache_key key.revision viewport canvas ≡ key
      → build_path (series_at id key.revision) viewport canvas ≡ some (ok path)

  -- The same of the cache that a call leaves, if it returns.
  abbrev pub IsCoherentAfter :
      Option (Result ChartError (List (ScreenPoint W)) × PathCache W) → Type 0
  IsCoherentAfter none = Unit
  IsCoherentAfter (some (result, cache)) = IsCoherent cache

  -- What a call says of a path that is built anew.
  abbrev pub IsBuilt :
      Option (Result ChartError (List (ScreenPoint W)))
      → Option (Result ChartError (List (ScreenPoint W)) × PathCache W)
      → Type 0
  IsBuilt built called = (map_some (λ r. r.0) called ≡ built) × IsCoherentAfter called

module _ {W : Type 0} ⦃d : F64 W⦄ ⦃m : F64Math W⦄ (laws : IsIeeeMath W)
    (series_at : SeriesId → ℕ → Series W) where
  same_range :
      (a b : AxisRange W)
      → m.to_bits a.start ≡ m.to_bits b.start
      → m.to_bits a.end ≡ m.to_bits b.end
      → a ≡ b
  same_range a b h k =
      let start = laws.to_bits_inj a.start b.start h in
      let end = laws.to_bits_inj a.end b.end k in cc

  same_view :
      (revision : ℕ) (v w : Viewport W) (c e : CanvasSize W)
      → path_cache_key revision v c ≡ path_cache_key revision w e
      → (v ≡ w) × (c ≡ e)
  same_view revision v w c e h =
      let bits = ap (λ (k : PathCacheKey). k.viewport_bits) h in
      let canvas = ap (λ (k : PathCacheKey). k.canvas_bits) h in
      let x0 : m.to_bits v.x.start ≡ m.to_bits w.x.start = cc in
      let x1 : m.to_bits v.x.end ≡ m.to_bits w.x.end = cc in
      let y0 : m.to_bits v.y.start ≡ m.to_bits w.y.start = cc in
      let y1 : m.to_bits v.y.end ≡ m.to_bits w.y.end = cc in
      let x = same_range v.x w.x x0 x1 in
      let y = same_range v.y w.y y0 y1 in
      let w0 : m.to_bits c.width ≡ m.to_bits e.width = cc in
      let h0 : m.to_bits c.height ≡ m.to_bits e.height = cc in
      let width = laws.to_bits_inj c.width e.width w0 in
      let height = laws.to_bits_inj c.height e.height h0 in (cc, cc)

  inserted :
      (series : Series W) (revision : ℕ) (viewport : Viewport W) (canvas : CanvasSize W)
      (cache : PathCache W) (path : List (ScreenPoint W))
      → IsCoherent series_at cache
      → series ≡ series_at series.id revision
      → build_path series viewport canvas ≡ some (ok path)
      → IsCoherent series_at (record {
        entries =
            insert_entry series.id (path_cache_key revision viewport canvas, path) cache.entries;
      })
  inserted series revision viewport canvas cache path coherent same built id key path' viewport'
        canvas' found keyed =
      let own = path_cache_key revision viewport canvas in
      elim (Bool-cases (text_eq series.id id)) [
        | inl e ↦
            let ids = (text_eq_iff series.id id).0 e in
            let at_id : get_entry id (insert_entry series.id (own, path) cache.entries)
                ≡ some (own, path) =
              rw (sym ids) (get_entry-insert_same series.id (own, path) cache.entries) in
            let (keys, paths) = same_entry (own, path) (key, path') (sym at_id ∙ found) in
            let revisions : revision ≡ key.revision = ap (λ (k : PathCacheKey). k.revision) keys in
            let views =
              same_view revision viewport' viewport canvas' canvas
                (ap (λ n. path_cache_key n viewport' canvas') revisions ∙ keyed ∙ sym keys) in
            let serieses : series_at id key.revision ≡ series = cc in
            rw (serieses, views.0, views.1) (built ∙ ap (λ p. some (ok p)) paths)
        | inr e ↦
            coherent id key path' viewport' canvas'
              (sym (get_entry-insert_other id series.id (own, path) cache.entries e) ∙ found) keyed
      ]

  project_into-IsBuilt :
      (series : Series W) (revision : ℕ) (viewport : Viewport W) (canvas : CanvasSize W)
      (cache : PathCache W) (built : Option (Result ChartError (List (ScreenPoint W))))
      → IsCoherent series_at cache
      → series ≡ series_at series.id revision
      → build_path series viewport canvas ≡ built
      → IsBuilt series_at built
          (project_into series.id (path_cache_key revision viewport canvas) built cache)
  unfolding project_into
  project_into-IsBuilt series revision viewport canvas cache none coherent same e = (refl, tt)
  project_into-IsBuilt series revision viewport canvas cache (some (err f)) coherent same e =
      (refl, coherent)
  project_into-IsBuilt series revision viewport canvas cache (some (ok path)) coherent same e =
      (refl, inserted series revision viewport canvas cache path coherent same e)

  -- When each revision of an identifier is one series, and the cache is coherent, `path_for` gives
  -- what `build_path` gives for the series, viewport and canvas asked for, a panic and an error
  -- included, whether the path was cached or not, and the cache that it leaves is coherent again.
  pub path_for-IsBuilt :
      (series : Series W) (revision : ℕ) (viewport : Viewport W) (canvas : CanvasSize W)
      (cache : PathCache W)
      → IsCoherent series_at cache
      → series ≡ series_at series.id revision
      → IsBuilt series_at
          (build_path series viewport canvas)
          (path_for series revision viewport canvas cache)
  unfolding path_for
  path_for-IsBuilt series revision viewport canvas cache coherent same =
      let own = path_cache_key revision viewport canvas in
      let anew =
        project_into-IsBuilt series revision viewport canvas cache
          (build_path series viewport canvas) coherent same refl in
      elim (Option-cases (get_entry series.id cache.entries)) [
        | inl e ↦ rw (path_for, e) anew
        | inr ((key, path), e) ↦ elim (Bool-cases (key_eq key own)) [
          | inl hit ↦
              let keys = key_eq-true key own hit in
              let revisions : revision ≡ key.revision =
                sym (ap (λ (k : PathCacheKey). k.revision) keys) in
              let stored =
                coherent series.id key path viewport canvas e
                  (ap (λ n. path_cache_key n viewport canvas) (sym revisions) ∙ sym keys) in
              let serieses : series_at series.id key.revision ≡ series = cc in
              let built : build_path series viewport canvas ≡ some (ok path) = cc in
              rw (path_for, e, hit, built) (refl, coherent)
          | inr miss ↦ rw (path_for, e, miss) anew
        ]
      ]
