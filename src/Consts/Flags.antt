-- ===== src/Consts/Flags.antt =====
-- Sets of flags: the aggregates of src/consts.rs are unions by `|`.
use Prim.Native.Nat.{bit_or}
use fanotify_fid.Base.{ℕ, List, [], ◌∷◌}

-- `a | b | …`
unfoldable pub any_of : List ℕ → ℕ
any_of [] = 0
any_of (flag ∷ flags) = bit_or flag (any_of flags)
