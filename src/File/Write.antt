-- ===== src/File/Write.antt =====
-- `filewrite` cuts a write to an inode into chunks, and the chunks add up.
use nice_system_calls.Common.{ℕ, ◌+◌, ◌≤◌, ◌≡◌}
use nice_system_calls.Common.Int.{ℤ, pos}
use nice_system_calls.File.{File, Transfer}

module _ (W : Type 0) (writei : Transfer W) where
  -- The file has moved on by `n` bytes and is otherwise as before.
  abbrev pub Advanced : File → ℕ → ℤ × File × W → Type 0
  Advanced f n r = r.1 ≡ record f { off = f.off + n }

  -- `Room off w` says that the inode `ip` can be written at `off`. Up to `last`, a write there
  -- writes all its bytes, and the inode can then be written behind them.
  module _ (ip last : ℕ) (Room : ℕ → W → Type 0)
      (whole : (a off n : ℕ) (w : W)
        → Room off w
        → off + n ≤ last
        → ((writei ip a off n w).0 ≡ pos n) × Room (off + n) (writei ip a off n w).1) where
    abbrev pub Wrote : File → ℕ → ℕ → ℤ × File × W → Type 0
    Wrote f n total r = (r.0 ≡ pos total) × Advanced f n r × Room (f.off + n) r.2
