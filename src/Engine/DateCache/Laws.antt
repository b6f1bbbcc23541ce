-- ===== src/Engine/DateCache/Laws.antt =====
-- What a reader of the date sees.
use lundicpp.Base.{
  ℕ, ◌≤◌, ◌≡◌, ◌≢◌, refl, List, [], ◌∷◌, Bytes, arith, length, take, take, inl, ◌⊎◌,
}
use lundicpp.Base.Find.{take-length_append}
use lundicpp.Engine.DateCache.{DateCache, fresh, buf, date, date_len, update, update_all, fill}

-- A pointer that a reader took from `get` shows the same bytes after one update, whether or not the
-- update formats a new date.
module _ (date_text : ℕ → Bytes) where
  pub update-keeps_reader :
      (epoch : ℕ) (c : DateCache)
      → c.active ≤ 1
      → buf (update date_text epoch c) c.active ≡ buf c c.active
  unfolding update
  update-keeps_reader epoch c h = ground arith

  -- The active index names a buffer, and after the first formatting that buffer shows the last second.
  pub record IsCurrent (c : DateCache) : Type 0 where
    pub index : c.active ≤ 1
    pub shown : (c.last_epoch ≡ 0) ⊎ (date c ≡ date_text c.last_epoch)

  fresh-IsCurrent : IsCurrent fresh
  fresh-IsCurrent = record { index = omega arith; shown = inl refl }

  module _ (full : (t : ℕ) → length (date_text t) ≡ date_len) where
    fill_date : (t : ℕ) (old : Bytes) → take date_len (fill (date_text t) old) ≡ date_text t
    fill_date t old = rw (← full t) (take-length_append (date_text t) _)

    update-IsCurrent :
        (epoch : ℕ) (c : DateCache) → IsCurrent c → IsCurrent (update date_text epoch c)
    unfolding update
    update-IsCurrent epoch c v =
        ground (arith, v.index, v.shown, fill_date epoch c.buf0, fill_date epoch c.buf1)

    update_all-IsCurrent :
        (ts : List ℕ) (c : DateCache) → IsCurrent c → IsCurrent (update_all date_text ts c)
    unfolding update_all
    update_all-IsCurrent [] c v = v
    update_all-IsCurrent (t ∷ ts) c v =
        update_all-IsCurrent ts (update date_text t c) (update-IsCurrent t c v)

    update-last_epoch : (epoch : ℕ) (c : DateCache) → (update date_text epoch c).last_epoch ≡ epoch
    unfolding update
    update-last_epoch epoch c = ground arith

    -- After any updates the date of the last one is shown, if that second is not second 0, where each
    -- formatted date has 29 bytes.
    pub update_all-date :
        (ts : List ℕ) (t : ℕ)
        → t ≢ 0
        → date (update date_text t (update_all date_text ts fresh)) ≡ date_text t
    update_all-date ts t h =
        let last = update_all date_text ts fresh in
        let v = update-IsCurrent t last (update_all-IsCurrent ts fresh fresh-IsCurrent) in
        ground (arith, v.shown, update-last_epoch t last)
