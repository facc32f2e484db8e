-- ===== src/Page/Access.antt =====
-- Element access in common/page.rs: what a load returns, and what a store changes.
use boltdb_rs.Base.{
  ℕ, ◌+◌, ◌*◌, ◌^◌, ◌≤◌, ◌<◌, ◌==◌, ◌≡◌, ◌⊎◌, refl, sym, ap, ◌∙◌, List, ◌++◌, arith, ok, fault,
  out_of_bounds, ◌>>=◌, ltb, lt→ltb, if◌then◌else◌, length, take, drop, le_bytes, from_le,
  length-append, length-le_bytes, drop-drop, take-take, drop-take,
}
use boltdb_rs.Memory.{read_inside, splice, decode_array, write-eq-ok, take-drop-splice}
use boltdb_rs.Page.{Page}
use boltdb_rs.Page.Load.{HasElements, elements_lem, element_lem}
use boltdb_rs.Page.Store.{stored_fits, HasElements-stored, stored_self, stored_other}
use boltdb_rs.Page.Layout.{drop-le_bytes}
use boltdb_rs.Page.Elements.{
  LeafPageElement, encode_leaf, decode_leaf, leaf_page_elements, leaf_page_element,
  set_leaf_page_element, leaf_key,
}

-- The fields are u32.
pub record IsLeafPageElement (e : LeafPageElement) : Type 0 where
  pub flags_fit : e.flags < 2 ^ 32
  pub pos_fits : e.pos < 2 ^ 32
  pub ksize_fits : e.ksize < 2 ^ 32
  pub vsize_fits : e.vsize < 2 ^ 32

abbrev pub leaf_at : ℕ → Page → LeafPageElement
leaf_at i p = decode_leaf (take 16 (drop (i * 16) p.body))

pub leaf_page_elements_lem :
    (p : Page)
    → HasElements p
    → leaf_page_elements p ≡ ok (decode_array decode_leaf 16 p.count p.body)
unfolding leaf_page_elements
leaf_page_elements_lem p h = elements_lem decode_leaf p h

-- The indexed load, on a page that holds the elements it counts: the bytes of the element, or the
-- panic of the slice index.
pub leaf_page_element_lem :
    (i : ℕ) (p : Page)
    → HasElements p
    → leaf_page_element i p ≡ (if ltb i p.count then ok (leaf_at i p) else fault out_of_bounds)
unfolding leaf_page_element
leaf_page_element_lem i p h = rw (leaf_page_elements_lem p h) (element_lem decode_leaf 16 p i)

pub length-encode_leaf : (e : LeafPageElement) → length (encode_leaf e) ≡ 16
unfolding encode_leaf
length-encode_leaf e = omega (
  arith,
  length-append (le_bytes 4 e.flags)
      (le_bytes 4 e.pos ++ (le_bytes 4 e.ksize ++ le_bytes 4 e.vsize)),
  length-append (le_bytes 4 e.pos) (le_bytes 4 e.ksize ++ le_bytes 4 e.vsize),
  length-append (le_bytes 4 e.ksize) (le_bytes 4 e.vsize),
  length-le_bytes 4 e.flags,
  length-le_bytes 4 e.pos,
  length-le_bytes 4 e.ksize,
  length-le_bytes 4 e.vsize,
)

pub decode_leaf-encode_leaf :
    (e : LeafPageElement) → IsLeafPageElement e → decode_leaf (encode_leaf e) ≡ e
unfolding encode_leaf decode_leaf le_bytes from_le
decode_leaf-encode_leaf e h = ground arith

-- Storing element `i` of a page whose buffer holds its elements.
module _ (i : ℕ) (e : LeafPageElement) (p : Page) (h : HasElements p) (inside : i < p.count) where
  abbrev body' : List ℕ
  body' = splice p.body (i * 16) (encode_leaf e)

  fits : i * 16 + length (encode_leaf e) ≤ length p.body
  fits = stored_fits decode_leaf (encode_leaf e) (length-encode_leaf e) i p h inside

  pub set_leaf_page_element-eq-ok : set_leaf_page_element i e p ≡ ok (record p { body = body' })
  unfolding set_leaf_page_element
  set_leaf_page_element-eq-ok = rw (
    leaf_page_element_lem i p h,
    lt→ltb i p.count inside,
    write-eq-ok p.body (i * 16) (encode_leaf e) fits,
  )

  HasElements-set : HasElements (record p { body = body' })
  HasElements-set =
      HasElements-stored decode_leaf (encode_leaf e) (length-encode_leaf e) i p h inside

  leaf_at-set_self : IsLeafPageElement e → leaf_at i (record p { body = body' }) ≡ e
  leaf_at-set_self w =
      ap decode_leaf (stored_self decode_leaf (encode_leaf e) (length-encode_leaf e) i p h inside)
      ∙ decode_leaf-encode_leaf e w

  leaf_at-set_other :
      (j : ℕ) → (j < i) ⊎ (i < j) → leaf_at j (record p { body = body' }) ≡ leaf_at j p
  leaf_at-set_other = stored_other decode_leaf (encode_leaf e) (length-encode_leaf e) i p h inside

  -- On a page that holds the elements it counts, an element of four u32 fields that is stored at
  -- the index of one of them is loaded again, and the other elements keep their values.
  leaf_page_element-set :
      IsLeafPageElement e
      → (j : ℕ)
      → (set_leaf_page_element i e p >>= leaf_page_element j)
        ≡ (if j == i then ok e else leaf_page_element j p)
  leaf_page_element-set w j =
      let q : Page = record p { body = body' } in
      rw (set_leaf_page_element-eq-ok, leaf_page_element_lem j q HasElements-set)
        (ground (
          arith,
          leaf_at-set_self w,
          ap (λ k. leaf_at k q) {x = j} {y = i},
          leaf_at-set_other j,
          leaf_page_element_lem j p h,
        ))

  stored_tail :
      (k : ℕ)
      → k ≤ 12
      → take k (drop (i * 16 + 4) body')
        ≡ take k (le_bytes 4 e.pos ++ (le_bytes 4 e.ksize ++ le_bytes 4 e.vsize))
  unfolding encode_leaf
  stored_tail k small =
      ap (take k) (sym (drop-drop (i * 16) 4 (i * 16 + 4) body' refl))
      ∙ (sym (take-take k 12 (drop 4 (drop (i * 16) body')) small)
          ∙ (ap (take k) (sym (drop-take 4 16 12 (drop (i * 16) body') (omega arith)))
              ∙ (ap (λ bs. take k (drop 4 bs))
                    (take-drop-splice p.body (i * 16) (encode_leaf e) 16
                      (sym (length-encode_leaf e)) fits)
                  ∙ ap (take k) (drop-le_bytes 4 e.flags _))))

  -- On a page that holds the elements it counts: the key that is read back for an element of at
  -- most 12 key bytes is made of the bytes of the element itself, its position field first,
  -- whatever the page holds at that position.
  pub leaf_key-set :
      e.ksize ≤ 12
      → (set_leaf_page_element i e p >>= leaf_key (i * 16) e)
        ≡ ok (take e.ksize (le_bytes 4 e.pos ++ (le_bytes 4 e.ksize ++ le_bytes 4 e.vsize)))
  unfolding leaf_key
  leaf_key-set small = rw set_leaf_page_element-eq-ok (
      read_inside body' (i * 16 + 4) e.ksize (omega (arith, HasElements-set))
      ∙ ap ok (stored_tail e.ksize small))
