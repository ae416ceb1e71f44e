-- ===== src/Texts.antt =====
-- Texts as the crate's messages are made: string literals, and numbers in decimal as `format!`
-- prints them. A text is its code points.
pub mod Decimal
use Prim.Native.Char.{code}
use Prim.Native.String.{String}
use fanotify_fid.Base.{ℕ, zero, suc, ◌+◌, ◌/◌, ◌%◌, List, [], ◌∷◌, ◌++◌, ltb, if◌then◌else◌}

abbrev pub Text : Type 0
Text = List ℕ

abbrev pub codes : String → Text
codes String.[] = []
codes (String.◌∷◌ c s) = code c ∷ codes s

-- The digits of a number, with as much fuel as it has digits at least.
unfoldable pub digits : ℕ → ℕ → Text
digits zero n = []
digits (suc fuel) n =
    let front = digits fuel (n / 10) in
    if ltb n 10 then (48 + n) ∷ [] else front ++ (48 + n % 10) ∷ []

unfoldable pub decimal : ℕ → Text
decimal n = digits (n + 1) n
