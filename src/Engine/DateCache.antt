-- ===== src/Engine/DateCache.antt =====
-- engine/date_cache.hpp: the two buffers, the index of the active one and the last formatted second.
-- `gmtime_r` and `strftime` are a parameter, the text of a second; a second is a count from 1970.
pub mod Laws
mod Examples
use lundicpp.Base.{
  ℕ, suc, ◌-◌, Bytes, List, [], ◌∷◌, ◌++◌, ◌==◌, if◌then◌else◌, length, take, drop, replicate,
}

abbrev pub date_len : ℕ
date_len = 29

abbrev pub buf_size : ℕ
buf_size = 32

pub record DateCache : Type 0 where
  pub buf0 : Bytes
  pub buf1 : Bytes
  pub active : ℕ
  pub last_epoch : ℕ

-- The members before the constructor's body runs.
abbrev pub fresh : DateCache
fresh = record {
  buf0 = replicate buf_size 0;
  buf1 = replicate buf_size 0;
  active = 0;
  last_epoch = 0;
}

-- `bufs_[ i ]`.
abbrev pub buf : DateCache → ℕ → Bytes
buf c i = if i == 0 then c.buf0 else c.buf1

-- A text and its terminator, written at the start of a buffer.
abbrev pub fill : Bytes → Bytes → Bytes
fill text old = text ++ (0 ∷ drop (suc (length text)) old)

abbrev pub set_buf : DateCache → ℕ → Bytes → DateCache
set_buf c i text =
    if i == 0 then record c { buf0 = fill text c.buf0 } else record c { buf1 = fill text c.buf1 }

module _ (date_text : ℕ → Bytes) where
  -- `update`, at the second `epoch` that the clock shows.
  unfoldable pub update : ℕ → DateCache → DateCache
  update epoch c =
      if epoch == c.last_epoch
      then c
      else let next = 1 - c.active in
        record (set_buf c next (date_text epoch)) { active = next; last_epoch = epoch }

  pub update_all : List ℕ → DateCache → DateCache
  unfolding update
  update_all [] c = c
  update_all (t ∷ ts) c = update_all ts (update t c)

-- The `length()` bytes at `get()`.
abbrev pub date : DateCache → Bytes
date c = take date_len (buf c c.active)
