-- ===== src/Http/Scan.antt =====
-- What the pointer operations of the parsers find in a text that is known from a position on.
use liby_cpp.Base.{
  ℕ, zero, suc, ◌+◌, ◌-◌, ◌≤◌, ◌≡◌, refl, sym, ap, ◌∙◌, Bool, true, false, not, ◌&&◌, List, [], ◌∷◌,
  ◌++◌, some, arith, ◌==◌, length, get_elem?, take, drop, length-append, length-drop, le→leb, ok,
}
use liby_cpp.Http.{Text, char_at, find_index, find_char, substring, is_space}

-- From position `i` on, the text is `rest`.
pub record From (text : Text) (i : ℕ) (rest : Text) : Type 0 where
  pub inside : i ≤ length text
  pub same : drop i text ≡ rest

-- No byte of the text is `c`.
abbrev pub lacks : ℕ → Text → Bool
lacks c [] = true
lacks c (d ∷ ds) = not (d == c) && lacks c ds

-- The text is not empty, and its last byte is no white space.
abbrev pub solid_end : Text → Bool
solid_end [] = false
solid_end (c ∷ []) = not (is_space c)
solid_end (c ∷ d ∷ ds) = solid_end (d ∷ ds)

-- The text is not empty, and its first byte is no white space.
abbrev pub solid_start : Text → Bool
solid_start [] = false
solid_start (c ∷ cs) = not (is_space c)

drop-nil {ℓ} : {A : Type ℓ} (n : ℕ) → drop {A = A} n [] ≡ []
drop-nil zero = refl
drop-nil (suc n) = refl

drop-add {ℓ} : {A : Type ℓ} (a b : ℕ) (xs : List A) → drop (a + b) xs ≡ drop b (drop a xs)
drop-add zero b xs = ground arith
drop-add (suc a) b [] = drop-nil (suc a + b) ∙ sym (drop-nil b)
drop-add (suc a) b (x ∷ xs) =
    let shift : suc a + b ≡ suc (a + b) = omega arith in rw shift (drop-add a b xs)

pub drop-append {ℓ} : {A : Type ℓ} (xs ys : List A) → drop (length xs) (xs ++ ys) ≡ ys
drop-append [] ys = refl
drop-append (x ∷ xs) ys = drop-append xs ys

pub drop-suc-append {ℓ} :
    {A : Type ℓ} (xs : List A) (y : A) (ys : List A) → drop (suc (length xs)) (xs ++ y ∷ ys) ≡ ys
drop-suc-append [] y ys = refl
drop-suc-append (x ∷ xs) y ys = drop-suc-append xs y ys

pub take-append {ℓ} : {A : Type ℓ} (xs ys : List A) → take (length xs) (xs ++ ys) ≡ xs
take-append [] ys = refl
take-append (x ∷ xs) ys = ap (◌∷◌ x) (take-append xs ys)

get_elem?-drop {ℓ} :
    {A : Type ℓ} (xs : List A) (i : ℕ) (x : A) (ys : List A)
    → drop i xs ≡ x ∷ ys
    → get_elem? xs i ≡ some x
get_elem?-drop [] zero x ys h = ground arith
get_elem?-drop [] (suc i) x ys h = ground arith
get_elem?-drop (z ∷ xs) zero x ys h = ground arith
get_elem?-drop (z ∷ xs) (suc i) x ys h = get_elem?-drop xs i x ys h

pub find_index-first :
    (c : ℕ) (w r : Text) → lacks c w ≡ true → find_index c (w ++ c ∷ r) ≡ length w
find_index-first c [] r h = ground arith
find_index-first c (d ∷ w) r h = ground (arith, find_index-first c w r)

pub From-start : (text : Text) → From text 0 text
From-start text = record { inside = omega arith; same = refl }

pub From-length :
    {text : Text} {i : ℕ} {rest : Text} → From text i rest → length text ≡ i + length rest
From-length {text} {i} f = omega (arith, length-drop i text, ap length f.same, f.inside)

pub From-add :
    {text : Text} {i : ℕ} (w r : Text) → From text i (w ++ r) → From text (i + length w) r
From-add {text} {i} w r f = record {
  inside = omega (arith, From-length f, length-append w r);
  same = drop-add i (length w) text ∙ ap (drop (length w)) f.same ∙ drop-append w r;
}

pub From-suc : {text : Text} {i c : ℕ} {r : Text} → From text i (c ∷ r) → From text (suc i) r
From-suc {text} {i} {c} {r} f =
    let next : i + 1 ≡ suc i = omega arith in rw next at (From-add (c ∷ []) r f)

pub find_char-From :
    {text : Text} {i : ℕ} (w r : Text) (c : ℕ)
    → From text i (w ++ c ∷ r)
    → lacks c w ≡ true
    → find_char text i c ≡ ok (i + length w)
unfolding find_char
find_char-From {text} {i} w r c f h =
    rw (le→leb i (length text) f.inside, f.same, find_index-first c w r h) refl

pub substring-From :
    {text : Text} {i : ℕ} (w r : Text)
    → From text i (w ++ r)
    → substring text i (i + length w) ≡ ok w
unfolding substring
substring-From {text} {i} w r f =
    let size : (i + length w) - i ≡ length w = omega arith in
    rw (le→leb i (i + length w) (omega arith), f.same, size, take-append w r) refl

pub char_at-From : {text : Text} {i c : ℕ} {r : Text} → From text i (c ∷ r) → char_at text i ≡ ok c
unfolding char_at
char_at-From {text} {i} {c} {r} f = rw (get_elem?-drop text i c r f.same) refl

-- The last byte of a text that ends in no white space.
pub solid_end-last :
    (w : Text)
    → solid_end w ≡ true
    → (v : Text) × (c : ℕ) × (w ≡ v ++ c ∷ []) × (is_space c ≡ false)
solid_end-last [] h = cc
solid_end-last (c ∷ []) h = ([], c, refl, ground arith)
solid_end-last (c ∷ d ∷ ds) h =
    let (v, e, p, q) = solid_end-last (d ∷ ds) h in (c ∷ v, e, ap (◌∷◌ c) p, q)

pub lacks-append :
    (c : ℕ) (v w : Text) → lacks c v ≡ true → lacks c w ≡ true → lacks c (v ++ w) ≡ true
lacks-append c [] w h k = k
lacks-append c (d ∷ ds) w h k = ground (arith, lacks-append c ds w)
