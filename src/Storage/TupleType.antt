-- ===== src/Storage/TupleType.antt =====
-- `split_tuple_type` of async_substrate_interface/utils/decoding.py. A type string is a list of code
-- points, here of ASCII.
use async_substrate_interfac.Prelude.{
  ℕ, zero, suc, ◌+◌, ◌≡◌, refl, ap, ◌∙◌, Bool, true, false, ◌&&◌, ◌||◌, Option, none, some, List,
  [], ◌∷◌, ◌++◌, ◌==◌, leb, if◌then◌else◌, map, All, Bool-cases, inl, inr, sym,
}
use async_substrate_interfac.Storage.Key.Prefix.{append_assoc, append_nil}

abbrev pub Text : Type 0
Text = List ℕ

-- Python's integer `depth`: above 0, or `suc n` below it.
pub data Depth : Type 0 where
  at_least : ℕ → Depth
  below : ℕ → Depth

unfoldable pub deeper : Depth → Depth
deeper (at_least n) = at_least (n + 1)
deeper (below zero) = at_least 0
deeper (below (suc n)) = below n

unfoldable pub higher : Depth → Depth
higher (at_least zero) = below 0
higher (at_least (suc n)) = at_least n
higher (below n) = below (n + 1)

unfoldable pub is_top : Depth → Bool
is_top (at_least zero) = true
is_top (at_least (suc n)) = false
is_top (below n) = false

-- The depth after a character: `<` is 60 and `>` is 62.
unfoldable pub depth_after : ℕ → Depth → Depth
unfolding deeper higher
depth_after c d = if c == 60 then deeper d else if c == 62 then higher d else d

-- A comma, 44, at depth 0.
unfoldable pub is_cut : ℕ → Depth → Bool
unfolding is_top
is_cut c d = (c == 44) && is_top d

unfoldable pub is_space : ℕ → Bool
is_space c = (c == 32) || (leb 9 c && leb c 13)

unfoldable pub lstrip : Text → Text
unfolding is_space
lstrip [] = []
lstrip (c ∷ s) = let rest = lstrip s in if is_space c then rest else c ∷ s

unfoldable pub put_back : ℕ → Text → Text
unfolding is_space
put_back c [] = if is_space c then [] else c ∷ []
put_back c (x ∷ s) = c ∷ x ∷ s

unfoldable pub rstrip : Text → Text
unfolding put_back
rstrip [] = []
rstrip (c ∷ s) = put_back c (rstrip s)

unfoldable pub strip : Text → Text
unfolding lstrip rstrip
strip s = rstrip (lstrip s)

unfoldable pub last_part : Text → List Text
unfolding strip
last_part [] = []
last_part (c ∷ s) = strip (c ∷ s) ∷ []

-- The loop, from a depth and the part read so far.
unfoldable pub split_from : Text → Depth → Text → List Text
unfolding last_part is_cut depth_after strip
split_from [] d current = last_part current
split_from (c ∷ s) d current =
    let cut = split_from s d [] in
    let on = split_from s (depth_after c d) (current ++ c ∷ []) in
    if is_cut c d then strip current ∷ cut else on

unfoldable pub drop_last_char : Text → Text
drop_last_char [] = []
drop_last_char (c ∷ []) = []
drop_last_char (c ∷ x ∷ s) = c ∷ drop_last_char (x ∷ s)

unfoldable pub inside : Text → Text
unfolding drop_last_char
inside [] = []
inside (c ∷ s) = drop_last_char s

unfoldable pub split_tuple_type : Text → List Text
unfolding split_from inside
split_tuple_type type_str = split_from (inside type_str) (at_least 0) []

-- The depth at the end of a text that has no comma at depth 0.
unfoldable pub read_through : Text → Depth → Option Depth
unfolding is_cut depth_after
read_through [] d = some d
read_through (c ∷ s) d =
    let rest = read_through s (depth_after c d) in if is_cut c d then none else rest

read_on :
    (s rest : Text) (d d' : Depth) (current : Text)
    → read_through s d ≡ some d'
    → split_from (s ++ rest) d current ≡ split_from rest d' (current ++ s)
unfolding read_through split_from
read_on [] rest d d' current h =
    let same : d ≡ d' = cc h in
    ap (split_from rest d) (sym (append_nil current))
    ∙ ap (λ x. split_from rest x (current ++ [])) same
read_on (c ∷ s) rest d d' current h =
    let ih = read_on s rest (depth_after c d) d' (current ++ c ∷ []) in
    elim (Bool-cases (is_cut c d)) [
      | inl cut ↦ absurd (cc (rw (cut, read_through) at h))
      | inr on ↦ rw on (
          ih (rw (on, read_through) at h)
          ∙ ap (split_from rest d') (append_assoc current (c ∷ []) s))
    ]

-- A part of a tuple type: it is not empty, its angle brackets close, and no comma stands outside
-- them.
abbrev pub IsPart : Text → Type 0
IsPart p = (c : ℕ) × (s : Text) × (p ≡ c ∷ s) × (read_through p (at_least 0) ≡ some (at_least 0))

-- The parts with a comma, 44, and a space, 32, between them.
pub join : Text → List Text → Text
join p [] = p
join p (q ∷ l) = p ++ 44 ∷ 32 ∷ join q l

lead : Bool → Text
lead true = 32 ∷ []
lead false = []

strip-lead : (b : Bool) (p : Text) → strip (lead b ++ p) ≡ strip p
unfolding lead strip lstrip
strip-lead true p = refl
strip-lead false p = refl

last_part-lead : (b : Bool) (c : ℕ) (s : Text) → last_part (lead b ++ c ∷ s) ≡ strip (c ∷ s) ∷ []
unfolding last_part lead
last_part-lead true c s = ap (λ x. x ∷ []) (unfold strip lstrip in refl)
last_part-lead false c s = refl

-- A comma at depth 0 ends the part, and the space after it starts the next.
cut_here :
    (current s : Text)
    → split_from (44 ∷ 32 ∷ s) (at_least 0) current
      ≡ strip current ∷ split_from s (at_least 0) (lead true)
unfolding split_from is_cut is_top depth_after lead
cut_here current s = refl

cut_last :
    (b : Bool) (p : Text) (c : ℕ) (s : Text)
    → p ≡ c ∷ s
    → split_from [] (at_least 0) (lead b ++ p) ≡ strip p ∷ []
unfolding split_from
cut_last b p c s e = rw e (last_part-lead b c s)

split_from-join :
    (b : Bool) (p : Text) (l : List Text)
    → IsPart p
    → All IsPart l
    → split_from (join p l) (at_least 0) (lead b) ≡ strip p ∷ map strip l
unfolding join
split_from-join b p [] (c, s, whole, through) parts =
    ap (λ x. split_from x (at_least 0) (lead b)) (sym (append_nil p))
    ∙ read_on p [] (at_least 0) (at_least 0) (lead b) through
    ∙ cut_last b p c s whole
split_from-join b p (q ∷ l) (c, s, whole, through) (part, parts) =
    let rest = split_from-join true q l part parts in
    read_on p (44 ∷ 32 ∷ join q l) (at_least 0) (at_least 0) (lead b) through
    ∙ cut_here (lead b ++ p) (join q l)
    ∙ ap (λ x. strip (lead b ++ p) ∷ x) rest
    ∙ ap (λ x. x ∷ strip q ∷ map strip l) (strip-lead b p)

inside-last : (s : Text) → drop_last_char (s ++ 41 ∷ []) ≡ s
unfolding drop_last_char
inside-last [] = refl
inside-last (c ∷ []) = refl
inside-last (c ∷ x ∷ s) = ap (λ t. c ∷ t) (inside-last (x ∷ s))

-- A tuple type, of parts that hold no comma outside their angle brackets, is split into its parts,
-- each stripped: what was joined by a comma and a space between parentheses, 40 and 41.
pub split_tuple_type-join :
    (p : Text) (l : List Text)
    → IsPart p
    → All IsPart l
    → split_tuple_type (40 ∷ join p l ++ 41 ∷ []) ≡ strip p ∷ map strip l
unfolding split_tuple_type inside
split_tuple_type-join p l part parts =
    ap (λ s. split_from s (at_least 0) []) (inside-last (join p l))
    ∙ unfold lead in split_from-join false p l part parts

-- A tuple within a tuple is cut at its own comma, since parentheses do not count: `(s, (p, q))` is
-- split into `s`, `(p` and `q)`.
pub split_tuple_type-nested :
    (s p q : Text)
    → IsPart s
    → IsPart (40 ∷ p)
    → IsPart (q ++ 41 ∷ [])
    → split_tuple_type (40 ∷ join s ((40 ∷ join p ((q ++ 41 ∷ []) ∷ [])) ∷ []) ++ 41 ∷ [])
      ≡ strip s ∷ strip (40 ∷ p) ∷ strip (q ++ 41 ∷ []) ∷ []
unfolding join
split_tuple_type-nested s p q hs hp hq =
    split_tuple_type-join s ((40 ∷ p) ∷ (q ++ 41 ∷ []) ∷ []) hs (hp, (hq, tt))
