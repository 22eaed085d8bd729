-- ===== src/Prelude/Texts.antt =====
-- Texts: `String` where a program only compares them, a list of code points where it walks them.
use Prim.Native.Nat.{ℕ}
use Prim.Native.Char.{code}
use Prim.Native.String.{String}
use mathlib.Core.Bool.{Bool, false, true, ◌&&◌, ◌||◌}
use mathlib.Core.List.{List, [], ◌∷◌}
use text.Mathlib.Text.{◌==◌ as str_eq}
use kelin_server.Prelude.Tests.{leb, ◌==◌, if◌then◌else◌}

-- The code points of a literal.
abbrev pub codes : String → List ℕ
codes String.[] = []
codes (String.◌∷◌ c s) = code c ∷ codes s

-- The white space that `str.strip` removes.
unfoldable pub is_space : ℕ → Bool
is_space c =
    (leb 9 c && leb c 13)
    || (leb 28 c && leb c 32)
    || c == 133
    || c == 160
    || c == 5760
    || (leb 8192 c && leb c 8202)
    || c == 8232
    || c == 8233
    || c == 8239
    || c == 8287
    || c == 12288

-- `str.lstrip`
unfoldable pub lstrip : List ℕ → List ℕ
lstrip [] = []
lstrip (c ∷ s) = if is_space c then lstrip s else c ∷ s

-- A character kept in front of a stripped end.
abbrev pub keep_char : ℕ → List ℕ → List ℕ
keep_char c [] = if is_space c then [] else c ∷ []
keep_char c (d ∷ s) = c ∷ d ∷ s

-- `str.rstrip`
unfoldable pub rstrip : List ℕ → List ℕ
rstrip [] = []
rstrip (c ∷ s) = keep_char c (rstrip s)

-- `str.strip`
unfoldable pub strip : List ℕ → List ℕ
unfolding lstrip rstrip is_space
strip s = rstrip (lstrip s)

-- The same on a `String`.
lstrip_string : String → String
lstrip_string String.[] = String.[]
lstrip_string (String.◌∷◌ c s) = if is_space (code c) then lstrip_string s else String.◌∷◌ c s

rstrip_string : String → String
rstrip_string String.[] = String.[]
rstrip_string (String.◌∷◌ c s) =
    let rest = rstrip_string s in
    if str_eq rest "" && is_space (code c) then String.[] else String.◌∷◌ c rest

unfoldable pub strip_string : String → String
unfolding lstrip_string rstrip_string is_space
strip_string s = rstrip_string (lstrip_string s)

-- PostgreSQL's `btrim`, which removes spaces only.
ltrim_string : String → String
ltrim_string String.[] = String.[]
ltrim_string (String.◌∷◌ c s) = if code c == 32 then ltrim_string s else String.◌∷◌ c s

rtrim_string : String → String
rtrim_string String.[] = String.[]
rtrim_string (String.◌∷◌ c s) =
    let rest = rtrim_string s in
    if str_eq rest "" && code c == 32 then String.[] else String.◌∷◌ c rest

unfoldable pub btrim : String → String
unfolding ltrim_string rtrim_string
btrim s = rtrim_string (ltrim_string s)

-- `text.startswith(prefix)`
abbrev pub starts_with : String → String → Bool
starts_with text String.[] = true
starts_with String.[] (String.◌∷◌ d p) = false
starts_with (String.◌∷◌ c s) (String.◌∷◌ d p) = code c == code d && starts_with s p

-- `part in text`
abbrev pub contains : String → String → Bool
contains part String.[] = starts_with String.[] part
contains part (String.◌∷◌ c s) = starts_with (String.◌∷◌ c s) part || contains part s

-- `a == b` for texts
abbrev pub text_eq : List ℕ → List ℕ → Bool
text_eq [] [] = true
text_eq [] (d ∷ t) = false
text_eq (c ∷ s) [] = false
text_eq (c ∷ s) (d ∷ t) = c == d && text_eq s t
