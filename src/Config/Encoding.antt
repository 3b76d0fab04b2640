-- ===== src/Config/Encoding.antt =====
-- What `json.dump` writes and `existing` holds in `save` of infrastructure/config/config_manager.py.
use sagittarius_engine.Prelude.{
  ◌==◌, Bool-cases, All-map, inl, inr, ◌≡◌, refl, ap, ◌∙◌, subst, Option, none, some, [], ◌∷◌,
  String, string_eq, Dict, get, keys, Distinct, All, arith,
}
use sagittarius_engine.Config.{
  Content, holds, not_json, not_text, unreadable, decoded, existing, encoded_entry, encode_all,
}
use sagittarius_engine.Config.Winner.{IsDict}
use sagittarius_engine.Config.Reloading.{value_in}

module _ {V : Type 0} (encode : V → Option V) where
  abbrev pub encoded : Option V → Option V
  encoded none = none
  encoded (some v) = encode v

  abbrev pub IsEncodable : String × V → Type 0
  IsEncodable e = (w : V) × (encode e.1 ≡ some w)

  -- What JSON gives back of a file's value is that value.
  abbrev pub IsStable : Option (Content V) → Type 0
  IsStable (some (holds entries)) =
      Distinct (keys entries) × All (λ e. encode e.1 ≡ some e.1) entries
  IsStable _ = Unit

  abbrev Encodes : Dict String V → Dict String V → Type 0
  Encodes entries written =
      (keys written ≡ keys entries) × ((key : String) → get key written ≡ encoded (get key entries))

  Encodes-encoded_entry :
      (k : String) (v : V) (entries written : Dict String V) (o : Option V)
      (rest : Option (Dict String V))
      → encode v ≡ o
      → ((d : Dict String V) → rest ≡ some d → Encodes entries d)
      → encoded_entry k o rest ≡ some written
      → Encodes ((k, v) ∷ entries) written
  unfolding get
  Encodes-encoded_entry k v entries written none rest ev ih e = absurd (cc)
  Encodes-encoded_entry k v entries written (some w) none ev ih e = absurd (cc)
  Encodes-encoded_entry k v entries written (some w) (some d) ev ih e =
      let same : (k, w) ∷ d ≡ written = cc in
      let (same_keys, same_values) = ih d refl in
      subst (Encodes ((k, v) ∷ entries)) same (ap (◌∷◌ k) same_keys, at_entry same_values)
    where
      at_entry :
          ((key : String) → get key d ≡ encoded (get key entries))
          → (key : String) → get key ((k, w) ∷ d) ≡ encoded (get key ((k, v) ∷ entries))
      at_entry values key = ground (arith, values key)

  -- `encode_all` keeps the keys and encodes each value, and works if each value can be encoded.
  pub encode_all_lem :
      (entries written : Dict String V)
      → encode_all encode entries ≡ some written
      → Encodes entries written
  unfolding encode_all get
  encode_all_lem [] [] e = (refl, λ key. refl)
  encode_all_lem [] (x ∷ written) e = absurd (cc)
  encode_all_lem ((k, v) ∷ entries) written e =
      Encodes-encoded_entry k v entries written (encode v) (encode_all encode entries) refl
        (λ d ed. encode_all_lem entries d ed) e

  pub all_encodable :
      (entries : Dict String V)
      → All IsEncodable entries
      → (written : Dict String V) × (encode_all encode entries ≡ some written)
  unfolding encode_all
  all_encodable [] a = ([], refl)
  all_encodable ((k, v) ∷ entries) a =
      let (w, ew) = a.0 in
      let (d, ed) = all_encodable entries a.1 in
      (
        (k, w) ∷ d,
        ap (λ o. encoded_entry k o (encode_all encode entries)) ew
            ∙ ap (encoded_entry k (some w)) ed,
      )

  -- What holds of the entries that `existing` takes from a file.
  abbrev pub Taken : Option (Dict String V) → Dict String V → Type 0
  Taken r old =
      Distinct (keys old)
      × All IsEncodable old
      × ((key : String) → value_in r key ≡ get key old)
      × ((key : String) → encoded (get key old) ≡ get key old)

  encoded_stable :
      (entries : Dict String V) (key : String)
      → All (λ e. encode e.1 ≡ some e.1) entries
      → encoded (get key entries) ≡ get key entries
  unfolding get
  encoded_stable [] key a = refl
  encoded_stable ((k, v) ∷ entries) key a = elim (Bool-cases (k == key)) [
    | inl same ↦ rw same a.0
    | inr other ↦ rw other (encoded_stable entries key a.1)
  ]

  nothing_taken :
      (r : Option (Dict String V)) → ((key : String) → value_in r key ≡ none) → Taken r []
  unfolding get
  nothing_taken r h = (tt, tt, h, λ key. refl)

  pub taken :
      (c : Option (Content V)) (old : Dict String V)
      → IsStable c
      → existing c ≡ some old
      → Taken (decoded c) old
  unfolding get
  taken none old f e =
      let same : [] ≡ old = cc in
      subst (Taken (some [])) same (nothing_taken (some []) (λ key. refl))
  taken (some (holds entries)) old f e =
      let same : entries ≡ old = cc in
      subst (Taken (some entries)) same (
        f.0,
        All-map (λ x h. (x.1, h)) entries f.1,
        λ key. refl,
        λ key. encoded_stable entries key f.1,
      )
  taken (some not_json) old f e =
      let same : [] ≡ old = cc in
      subst (Taken (some [])) same (nothing_taken (some []) (λ key. refl))
  taken (some not_text) old f e = absurd (cc)
  taken (some unreadable) old f e =
      let same : [] ≡ old = cc in subst (Taken none) same (nothing_taken none (λ key. refl))

  pub stable-IsDict : (c : Option (Content V)) → IsStable c → IsDict (decoded c)
  stable-IsDict none f = tt
  stable-IsDict (some (holds entries)) f = f.0
  stable-IsDict (some not_json) f = tt
  stable-IsDict (some not_text) f = tt
  stable-IsDict (some unreadable) f = tt

  pub not_text_only : (c : Option (Content V)) → existing c ≡ none → c ≡ some not_text
  not_text_only none e = absurd (cc)
  not_text_only (some (holds entries)) e = absurd (cc)
  not_text_only (some not_json) e = absurd (cc)
  not_text_only (some not_text) e = refl
  not_text_only (some unreadable) e = absurd (cc)
