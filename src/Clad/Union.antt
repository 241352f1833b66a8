-- ===== src/Clad/Union.antt =====
-- The unions of CLAD: a tag, and the structure that it announces. A union is given by its view, which
-- says of each value the tag and the structure, and by its cases, what `unpackStruct` reads by tag;
-- where the two agree, the union is a codec like that of a structure.
use vic_cloudless.Prelude.{
  length, if◌then◌else◌, ◌==◌, ℕ, ◌+◌, ◌≡◌, sym, ap, ◌∙◌, true, Option, none, some, List, [], ◌∷◌,
  ◌++◌, arith,
}
use vic_cloudless.Clad.Wire.{Bytes, Codec, and_then, and_then-eq_some}

-- The tag of a value, and its structure.
pub record View (U : Type 0) : Type 1 where
  pub Body : Type 0
  pub tag : ℕ
  pub codec : Codec Body
  pub body : Body
  pub build : Body → U

-- The view of a value, from the codec of its structure and the constructor.
abbrev pub announced : {A U : Type 0} → ℕ → Codec A → (A → U) → A → View U
announced {A} tag codec build body = record {
  Body = A;
  tag = tag;
  codec = codec;
  body = body;
  build = build;
}

abbrev pub Decoder : Type 0 → Type 0
Decoder U = Bytes → Option (U × Bytes)

-- What reads one case of a union.
abbrev pub reads : {A U : Type 0} → Codec A → (A → U) → Decoder U
reads c build bs = and_then (c.unpack bs) (λ r. some (build r.0, r.1))

module _ {U : Type 0} where
  -- The case of a tag, if there is one.
  abbrev pub case_of : List (ℕ × Decoder U) → ℕ → Option (Decoder U)
  case_of [] tag = none
  case_of ((t, d) ∷ cases) tag = if t == tag then some d else case_of cases tag

  -- The case of a view's tag reads its structure, and builds the value again.
  abbrev pub Agrees : List (ℕ × Decoder U) → U → View U → Type 0
  Agrees cases u v = (case_of cases v.tag ≡ some (reads v.codec v.build)) × (v.build v.body ≡ u)

module _ {U : Type 0} (view : U → View U) (cases : List (ℕ × Decoder U))
    (agrees : (u : U) → Agrees cases u (view u)) where
  abbrev pub pack_view : View U → Option Bytes
  pack_view v = and_then (v.codec.pack v.body) (λ b. some (v.tag ∷ b))

  abbrev pub unpack_union : Bytes → Option (U × Bytes)
  unpack_union [] = none
  unpack_union (tag ∷ bs) = and_then (case_of cases tag) (λ d. d bs)

  view_unpack :
      (v : View U) (u : U) (b rest : Bytes)
      → Agrees cases u v
      → v.codec.fits v.body ≡ true
      → pack_view v ≡ some b
      → unpack_union (b ++ rest) ≡ some (u, rest)
  view_unpack v u b rest (case, same) f e =
      let (y, ey, e') = and_then-eq_some (v.codec.pack v.body) _ e in
      let whole : v.tag ∷ y ≡ b = cc e' in
      ap (λ x. unpack_union (x ++ rest)) (sym whole)
      ∙ ap (λ o. and_then o (λ d. d (y ++ rest))) case
      ∙ ap (λ o. and_then o (λ r. some (v.build r.0, r.1))) (v.codec.unpack-pack v.body y rest f ey)
      ∙ ap (λ x. some (x, rest)) same

  pub view_length :
      (v : View U) (b : Bytes) → pack_view v ≡ some b → length b ≡ 1 + v.codec.size v.body
  view_length v b e =
      let (y, ey, e') = and_then-eq_some (v.codec.pack v.body) _ e in
      let whole : v.tag ∷ y ≡ b = cc e' in
      ap length (sym whole) ∙ omega (arith, v.codec.length-pack v.body y ey)

  pub union_unpack :
      (u : U) (b rest : Bytes)
      → (view u).codec.fits (view u).body ≡ true
      → pack_view (view u) ≡ some b
      → unpack_union (b ++ rest) ≡ some (u, rest)
  union_unpack u b rest f e = view_unpack (view u) u b rest (agrees u) f e

  unfoldable pub union : Codec U
  union = record {
    fits = λ u. (view u).codec.fits (view u).body;
    pack = λ u. pack_view (view u);
    unpack = unpack_union;
    size = λ u. 1 + (view u).codec.size (view u).body;
    unpack-pack = union_unpack;
    length-pack = λ u b e. view_length (view u) b e;
  }
