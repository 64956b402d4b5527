-- ===== src/Ledger/Tamper.antt =====
-- What a retained head hash is worth (run_ledger.py, `validate` with `expected_head_hash`): two
-- ledgers that it accepts hold the same records.
use crt_master.Base.{
  >>=-eq-ok, All, Bool-cases, List, String, [], ap, append-nil, ap₂, arith, inl, inr, map, ok,
  ok-injective, pos, refl, some, str_eq, str_eq_iff, subst, sym, true, ℕ, ◌++◌, ◌+◌, ◌∙◌, ◌∷◌, ◌≡◌,
  ◌≢◌,
}
use crt_master.Json.{Json, end, field, get, str, without}
use crt_master.Runtime.{Dict, Runtime}
use crt_master.Ledger.{
  Scan, Validation, body_for_hash, compute_record_hash, genesis_hash, head_issues, scan_rows, start,
  validate_rows,
}
use crt_master.Ledger.Chain.{++-nil, IsSound, Keys}
use crt_master.Ledger.Validate.{
  IsSoundLedger, head_after, is_empty-nil, scan_rows-silent, scan_rows_sound,
}

abbrev rev : {A : Type 0} → List A → List A → List A
rev [] acc = acc
rev (x ∷ xs) acc = rev xs (x ∷ acc)

rev-rev : {A : Type 0} (xs ys zs : List A) → rev (rev xs ys) zs ≡ rev ys (xs ++ zs)
rev-rev [] ys zs = refl
rev-rev (x ∷ xs) ys zs = rev-rev xs (x ∷ ys) zs

map-rev :
    {A B : Type 0} (f : A → B) (xs ys : List A) → map f (rev xs ys) ≡ rev (map f xs) (map f ys)
map-rev f [] ys = refl
map-rev f (x ∷ xs) ys = map-rev f xs (x ∷ ys)

rev-injective : {A : Type 0} (xs ys : List A) → rev xs [] ≡ rev ys [] → xs ≡ ys
rev-injective xs ys h =
    sym (append-nil xs)
    ∙ sym (rev-rev xs [] [])
    ∙ ap (λ zs. rev zs []) h
    ∙ rev-rev ys [] []
    ∙ append-nil ys

str-injective : (F : Type 0) {a b : String} → ◌≡◌ {A = Json F} (str a) (str b) → a ≡ b
str-injective F h = cc

module _ (rt : Runtime) where
  get-without :
      (d : Dict rt) → get "prev_record_hash" (without "record_hash" d) ≡ get "prev_record_hash" d
  get-without end = refl
  get-without (field k v rest) = elim (Bool-cases (str_eq k "record_hash")) [
    | inl e ↦ rw ((str_eq_iff k "record_hash").0 e) (get-without rest)
    | inr e ↦ rw (e, get-without rest)
  ]

  same_body :
      (x y : Dict rt)
      → body_for_hash rt x ≡ body_for_hash rt y
      → without "record_hash" x ≡ without "record_hash" y
  unfolding body_for_hash
  same_body x y h = h

  -- Rows from the last to the first, each naming the hash of the next in the list.
  abbrev IsLinked : String → List (Dict rt) → Type 0
  IsLinked h [] = h ≡ genesis_hash
  IsLinked h (row ∷ rows) =
      (compute_record_hash rt row ≡ h)
      × ((p : String) × (get "prev_record_hash" row ≡ str p) × IsLinked p rows)

  IsSound-IsLinked :
      (n : ℕ) (rows done : List (Dict rt)) (p : String) (hs : List String) (ks : Keys rt)
      → IsSound rt n p hs ks rows
      → IsLinked p done
      → IsLinked (head_after rt p rows) (rev rows done)
  IsSound-IsLinked n [] done p hs ks sound linked = linked
  IsSound-IsLinked n (row ∷ rows) done p hs ks (r, _, (ks', _, rest)) linked =
      let h = compute_record_hash rt row in
      IsSound-IsLinked (n + 1) rows (row ∷ done) h (h ∷ hs) ks' rest (refl, (p, r.linked, linked))

  -- SHA-256 tells the records of two ledgers apart, and yields the genesis hash for none of them.
  abbrev pub Apart : Dict rt → Dict rt → Type 0
  Apart a b =
      compute_record_hash rt a ≡ compute_record_hash rt b → body_for_hash rt a ≡ body_for_hash rt b

  pub record NoCollision (xs ys : List (Dict rt)) : Type 0 where
    pub apart : All (λ a. All (Apart a) ys) xs
    pub left_not_genesis : All (λ a. compute_record_hash rt a ≢ genesis_hash) xs
    pub right_not_genesis : All (λ b. compute_record_hash rt b ≢ genesis_hash) ys

  All-rev :
      (P : Dict rt → Type 0) (xs ys : List (Dict rt)) → All P xs → All P ys → All P (rev xs ys)
  All-rev P [] ys h k = k
  All-rev P (x ∷ xs) ys h k = All-rev P xs (x ∷ ys) h.1 (h.0, k)

  All-map :
      (P Q : Dict rt → Type 0) (xs : List (Dict rt))
      → ((x : Dict rt) → P x → Q x)
      → All P xs
      → All Q xs
  All-map P Q [] f h = tt
  All-map P Q (x ∷ xs) f h = (f x h.0, All-map P Q xs f h.1)

  NoCollision-rev :
      (xs ys : List (Dict rt)) → NoCollision xs ys → NoCollision (rev xs []) (rev ys [])
  NoCollision-rev xs ys c = record {
    apart = All-rev _ xs [] (All-map _ _ xs (λ a h. All-rev (Apart a) ys [] h tt) c.apart) tt;
    left_not_genesis = All-rev _ xs [] c.left_not_genesis tt;
    right_not_genesis = All-rev _ ys [] c.right_not_genesis tt;
  }

  linked_same :
      (xs ys : List (Dict rt)) (h : String)
      → IsLinked h xs
      → IsLinked h ys
      → NoCollision xs ys
      → map (body_for_hash rt) xs ≡ map (body_for_hash rt) ys
  linked_same [] [] h a b c = refl
  linked_same [] (y ∷ ys) h a b c = absurd (c.right_not_genesis.0 (b.0 ∙ a))
  linked_same (x ∷ xs) [] h a b c = absurd (c.left_not_genesis.0 (a.0 ∙ b))
  linked_same (x ∷ xs) (y ∷ ys) h (hx, (p, px, lx)) (hy, (q, qy, ly)) c =
      let same : body_for_hash rt x ≡ body_for_hash rt y = c.apart.0.0 (hx ∙ sym hy) in
      let link =
        sym px
        ∙ sym (get-without x)
        ∙ ap (get "prev_record_hash") (same_body x y same)
        ∙ get-without y
        ∙ qy in
      let q-p = str-injective rt.floats.Float link in
      ap₂ ◌∷◌ same (
        linked_same xs ys p lx (subst (λ r. IsLinked r ys) (sym q-p) ly) (record {
          apart = All-map _ _ xs (λ a k. k.1) c.apart.1;
          left_not_genesis = c.left_not_genesis.1;
          right_not_genesis = c.right_not_genesis.1;
        }))

  head_issues-nil :
      (expected head : String) → head_issues rt (some expected) head ≡ [] → head ≡ expected
  head_issues-nil expected head h = ground (arith, str_eq_iff head expected)

  accepted_at :
      (rows : List (Dict rt)) (h : String) {v : Validation}
      → validate_rows rt (some h) rows ≡ ok v
      → v.valid ≡ true
      → IsSoundLedger rt rows × (head_after rt genesis_hash rows ≡ h)
  unfolding validate_rows
  accepted_at rows h ran good =
      let (s, went, same) = >>=-eq-ok (scan_rows rt 1 rows (start rt)) _ ran in
      let silent =
        is_empty-nil rt _
          (subst (λ (w : Validation). w.valid ≡ true) (sym (ok-injective same)) good) in
      let (quiet, at) = ++-nil rt s.errors _ silent in
      let sound = scan_rows-silent rt 1 rows genesis_hash [] [] (pos 0) went quiet in
      let (s', went', _, head) = scan_rows_sound rt 1 rows genesis_hash [] [] (pos 0) sound in
      (
        sound,
        sym head
            ∙ ap (λ (t : Scan rt). t.previous_hash) (ok-injective (sym went' ∙ went))
            ∙ head_issues-nil h s.previous_hash at,
      )

  -- Two ledgers that `validate` accepts against one retained head hash hold the same records, in the
  -- same order and number, if no two different records of theirs have one hash and none has the
  -- genesis hash: no record can be edited, dropped, added or moved without the check noticing.
  pub validate-same_records :
      (xs ys : List (Dict rt)) (h : String) {v w : Validation}
      → validate_rows rt (some h) xs ≡ ok v
      → v.valid ≡ true
      → validate_rows rt (some h) ys ≡ ok w
      → w.valid ≡ true
      → NoCollision xs ys
      → map (body_for_hash rt) xs ≡ map (body_for_hash rt) ys
  validate-same_records xs ys h vx gx vy gy apart =
      let (sx, hx) = accepted_at xs h vx gx in
      let (sy, hy) = accepted_at ys h vy gy in
      let lx =
        subst (λ r. IsLinked r (rev xs [])) hx
          (IsSound-IsLinked 1 xs [] genesis_hash [] [] sx refl) in
      let ly =
        subst (λ r. IsLinked r (rev ys [])) hy
          (IsSound-IsLinked 1 ys [] genesis_hash [] [] sy refl) in
      rev-injective _ _ (
        sym (map-rev (body_for_hash rt) xs [])
        ∙ linked_same (rev xs []) (rev ys []) h lx ly (NoCollision-rev xs ys apart)
        ∙ map-rev (body_for_hash rt) ys [])
