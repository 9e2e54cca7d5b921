-- ===== src/Python/Text.antt =====
-- Methods of `str` on native texts.
use Prim.Native.Char.{code}
use Prim.Native.String.{[], ◌∷◌}
use turbocat.Prelude.{String, Bool, true, false, ◌&&◌, ◌≡◌, refl, ◌==◌, if◌then◌else◌}

abbrev pub is_empty : String → Bool
is_empty [] = true
is_empty (c ∷ s) = false

-- s.rstrip("/")
unfoldable pub rstrip_slash : String → String
rstrip_slash [] = []
rstrip_slash (c ∷ s) =
    let rest = rstrip_slash s in if code c == b'/' && is_empty rest then [] else c ∷ rest

rstrip_slash_test : rstrip_slash "https://api/v1//" ≡ "https://api/v1"
unfolding rstrip_slash
rstrip_slash_test = refl
