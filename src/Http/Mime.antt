-- ===== src/Http/Mime.antt =====
-- src/http/HttpDef.cpp: `file_mime` and `getMimeType`.
use liby_cpp.Base.{
  ℕ, suc, ◌≡◌, refl, true, List, [], ◌∷◌, ◌++◌, Option, none, some, ◌==◌, if◌then◌else◌, length,
  drop, ==_self, ==_self, arith,
}
use liby_cpp.Http.{Text, same, lookup}
use liby_cpp.Http.Scan.{lacks, drop-append}

-- "text/plain"
abbrev pub text_plain : Text
text_plain = 116 ∷ 101 ∷ 120 ∷ 116 ∷ 47 ∷ 112 ∷ 108 ∷ 97 ∷ 105 ∷ 110 ∷ []

-- `file_mime`: the suffixes with their types.
unfoldable pub file_mime : List (Text × Text)
file_mime =
    (46 ∷ 104 ∷ 116 ∷ 109 ∷ 108 ∷ [], 116 ∷ 101 ∷ 120 ∷ 116 ∷ 47 ∷ 104 ∷ 116 ∷ 109 ∷ 108 ∷ [])
    ∷ (46 ∷ 120 ∷ 109 ∷ 108 ∷ [], 116 ∷ 101 ∷ 120 ∷ 116 ∷ 47 ∷ 120 ∷ 109 ∷ 108 ∷ [])
    ∷ (
      46 ∷ 120 ∷ 104 ∷ 116 ∷ 109 ∷ 108 ∷ [],
      97 ∷ 112 ∷ 112 ∷ 108 ∷ 105 ∷ 99 ∷ 97 ∷ 116 ∷ 105 ∷ 111 ∷ 110 ∷ 47 ∷ 120 ∷ 104 ∷ 116 ∷ 109
          ∷ 108 ∷ 43 ∷ 120 ∷ 109 ∷ 108 ∷ [],
    )
    ∷ (46 ∷ 116 ∷ 120 ∷ 116 ∷ [], 116 ∷ 101 ∷ 120 ∷ 116 ∷ 47 ∷ 112 ∷ 108 ∷ 97 ∷ 105 ∷ 110 ∷ [])
    ∷ (
      46 ∷ 114 ∷ 116 ∷ 102 ∷ [],
      97 ∷ 112 ∷ 112 ∷ 108 ∷ 105 ∷ 99 ∷ 97 ∷ 116 ∷ 105 ∷ 111 ∷ 110 ∷ 47 ∷ 114 ∷ 116 ∷ 102 ∷ [],
    )
    ∷ (
      46 ∷ 112 ∷ 100 ∷ 102 ∷ [],
      97 ∷ 112 ∷ 112 ∷ 108 ∷ 105 ∷ 99 ∷ 97 ∷ 116 ∷ 105 ∷ 111 ∷ 110 ∷ 47 ∷ 112 ∷ 100 ∷ 102 ∷ [],
    )
    ∷ (
      46 ∷ 119 ∷ 111 ∷ 114 ∷ 100 ∷ [],
      97 ∷ 112 ∷ 112 ∷ 108 ∷ 105 ∷ 99 ∷ 97 ∷ 116 ∷ 105 ∷ 111 ∷ 110 ∷ 47 ∷ 109 ∷ 115 ∷ 119 ∷ 111
          ∷ 114 ∷ 100 ∷ [],
    )
    ∷ (46 ∷ 112 ∷ 110 ∷ 103 ∷ [], 105 ∷ 109 ∷ 97 ∷ 103 ∷ 101 ∷ 47 ∷ 112 ∷ 110 ∷ 103 ∷ [])
    ∷ (46 ∷ 103 ∷ 105 ∷ 102 ∷ [], 105 ∷ 109 ∷ 97 ∷ 103 ∷ 101 ∷ 47 ∷ 103 ∷ 105 ∷ 102 ∷ [])
    ∷ (46 ∷ 106 ∷ 112 ∷ 103 ∷ [], 105 ∷ 109 ∷ 97 ∷ 103 ∷ 101 ∷ 47 ∷ 106 ∷ 112 ∷ 101 ∷ 103 ∷ [])
    ∷ (
      46 ∷ 106 ∷ 112 ∷ 101 ∷ 103 ∷ [],
      105 ∷ 109 ∷ 97 ∷ 103 ∷ 101 ∷ 47 ∷ 106 ∷ 112 ∷ 101 ∷ 103 ∷ [],
    )
    ∷ (46 ∷ 97 ∷ 117 ∷ [], 97 ∷ 117 ∷ 100 ∷ 105 ∷ 111 ∷ 47 ∷ 98 ∷ 97 ∷ 115 ∷ 105 ∷ 99 ∷ [])
    ∷ (
      46 ∷ 109 ∷ 112 ∷ 101 ∷ 103 ∷ [],
      118 ∷ 105 ∷ 100 ∷ 101 ∷ 111 ∷ 47 ∷ 109 ∷ 112 ∷ 101 ∷ 103 ∷ [],
    )
    ∷ (46 ∷ 109 ∷ 112 ∷ 103 ∷ [], 118 ∷ 105 ∷ 100 ∷ 101 ∷ 111 ∷ 47 ∷ 109 ∷ 112 ∷ 101 ∷ 103 ∷ [])
    ∷ (
      46 ∷ 97 ∷ 118 ∷ 105 ∷ [],
      118 ∷ 105 ∷ 100 ∷ 101 ∷ 111 ∷ 47 ∷ 120 ∷ 45 ∷ 109 ∷ 115 ∷ 118 ∷ 105 ∷ 100 ∷ 101 ∷ 111 ∷ [],
    )
    ∷ (
      46 ∷ 103 ∷ 122 ∷ [],
      97 ∷ 112 ∷ 112 ∷ 108 ∷ 105 ∷ 99 ∷ 97 ∷ 116 ∷ 105 ∷ 111 ∷ 110 ∷ 47 ∷ 120 ∷ 45 ∷ 103 ∷ 122 ∷ 105
          ∷ 112 ∷ [],
    )
    ∷ (
      46 ∷ 116 ∷ 97 ∷ 114 ∷ [],
      97 ∷ 112 ∷ 112 ∷ 108 ∷ 105 ∷ 99 ∷ 97 ∷ 116 ∷ 105 ∷ 111 ∷ 110 ∷ 47 ∷ 120 ∷ 45 ∷ 116 ∷ 97 ∷ 114
          ∷ [],
    )
    ∷ (46 ∷ 99 ∷ 115 ∷ 115 ∷ [], 116 ∷ 101 ∷ 120 ∷ 116 ∷ 47 ∷ 99 ∷ 115 ∷ 115 ∷ [])
    ∷ (46 ∷ 99 ∷ 103 ∷ 105 ∷ [], 116 ∷ 101 ∷ 120 ∷ 116 ∷ 47 ∷ 104 ∷ 116 ∷ 109 ∷ 108 ∷ [])
    ∷ ([], 116 ∷ 101 ∷ 120 ∷ 116 ∷ 47 ∷ 112 ∷ 108 ∷ 97 ∷ 105 ∷ 110 ∷ [])
    ∷ []

-- `rfind(c)`
abbrev pub rfind : ℕ → Text → Option ℕ
rfind c [] = none
rfind c (d ∷ ds) = elim (rfind c ds) [
  | none ↦ if d == c then some 0 else none
  | some i ↦ some (suc i)
]

abbrev pub or_plain : Option Text → Text
or_plain none = text_plain
or_plain (some t) = t

-- `getMimeType(uri)` where `rfind` found the last full stop.
unfoldable pub mime_from : Text → Option ℕ → Text
mime_from uri none = text_plain
mime_from uri (some ops) = or_plain (lookup same (drop ops uri) file_mime)

-- `getMimeType(uri)`
unfoldable pub get_mime_type : Text → Text
get_mime_type uri = mime_from uri (rfind 46 uri)

rfind-lacks : (c : ℕ) (w : Text) → lacks c w ≡ true → rfind c w ≡ none
rfind-lacks c [] h = refl
rfind-lacks c (d ∷ ds) h = ground (arith, rfind-lacks c ds)

rfind-last : (c : ℕ) (v w : Text) → lacks c w ≡ true → rfind c (v ++ c ∷ w) ≡ some (length v)
rfind-last c [] w h = rw (rfind-lacks c w h, ==_self c) refl
rfind-last c (d ∷ ds) w h = rw (rfind-last c ds w h) refl

-- The type of a file goes by what stands behind the last full stop of its name: a path that ends in
-- `.` and an extension has the type in the table, "text/plain" for one that is not there and for a
-- path without a full stop.
pub get_mime_type-extension :
    (path extension : Text)
    → lacks 46 extension ≡ true
    → (get_mime_type (path ++ 46 ∷ extension) ≡ or_plain (lookup same (46 ∷ extension) file_mime))
      × (get_mime_type extension ≡ text_plain)
unfolding get_mime_type mime_from
get_mime_type-extension path extension h = (
  rw (rfind-last 46 path extension h, drop-append path (46 ∷ extension)) refl,
  rw (rfind-lacks 46 extension h) refl,
)
