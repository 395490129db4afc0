-- ===== src/Str/Procs/Found.antt =====
-- b6b_str_proc_in (src/b6b_str.c): what it answers for two texts.
use b6b.Base.{
  ℕ, suc, ◌+◌, ◌-◌, ◌≡◌, ◌≢◌, refl, sym, ap, ◌∙◌, ◌↔◌, inl, inr, Bool, true, false, some, [], ◌∷◌,
  append-nil, arith, ltb, ◌==◌, if◌then◌else◌, Bool-cases, length, Bytes, bytes_eq_iff,
  bytes_eq_refl,
}
use b6b.CLib.{CLib}
use b6b.Hash.{hash}
use b6b.Store.{Ptr, Obj, State, ok, err}
use b6b.Store.Monad.{done, pure, load, store, return_bool, done-bind, load-cell, update_same}
use b6b.Object.{is_empty, as_str, obj_hash, obj_eq}
use b6b.Object.Cells.{put, obj_hash-cell}
use b6b.Str.Search.{found_in, Occurs, found_in_iff, length-Occurs, Occurs-same}
use b6b.Str.Procs.{same_texts, in_texts}

-- The object has this text, and the hash of it where it has one.
pub record IsText (st : State) (p : Ptr) (t : Bytes) : Type 0 where
  pub obj : Obj
  pub is_there : st.cell p ≡ some obj
  pub has_text : (obj.is_str ≡ true) × (obj.s ≡ t)
  pub hashes : obj.is_hashed ≡ true → obj.hash ≡ hash t

-- The object has this text and its hash.
record IsHashed (st : State) (p : Ptr) (t : Bytes) : Type 0 where
  obj : Obj
  is_there : st.cell p ≡ some obj
  has_text : (obj.is_str ≡ true) × (obj.s ≡ t) × (obj.hash ≡ hash t)

-- What b6b_obj_hash leaves of an object.
abbrev hashed : Obj → Obj
hashed o = record o { hash = hash o.s; is_hashed = true }

-- The state behind a step that only hashed: what had a text or a hash still has it.
record Kept (st st' : State) : Type 0 where
  bools : (st'.one ≡ st.one) × (st'.zero_obj ≡ st.zero_obj)
  texts : (q : Ptr) (t : Bytes) → IsText st q t → IsText st' q t
  hashes : (q : Ptr) (t : Bytes) → IsHashed st q t → IsHashed st' q t

put-hashed : (st : State) (p : Ptr) (o : Obj) → st.cell p ≡ some o → Kept st (put st p (hashed o))
put-hashed st p o h = record {
  bools = (refl, refl);
  texts = λ q t x. elim (Bool-cases (q == p)) [
    | inl y ↦ record {
      obj = hashed o;
      is_there = ground (arith, y);
      has_text = ground (arith, h, x.is_there, x.has_text, y);
      hashes = λ e. ap hash (ground (arith, h, x.is_there, x.has_text, y));
    }
    | inr n ↦ record {
      obj = x.obj;
      is_there = ground (arith, n, x.is_there);
      has_text = x.has_text;
      hashes = x.hashes;
    }
  ];
  hashes = λ q t x. elim (Bool-cases (q == p)) [
    | inl y ↦
        let e : o.s ≡ t = ground (arith, h, x.is_there, x.has_text, y) in
        record {
          obj = hashed o;
          is_there = ground (arith, y);
          has_text = (ground (arith, h, x.is_there, x.has_text, y), e, ap hash e);
        }
    | inr n ↦ record {
      obj = x.obj;
      is_there = ground (arith, n, x.is_there);
      has_text = x.has_text;
    }
  ];
}

module _ ⦃c : CLib⦄ where
  as_str-cell :
      (n : ℕ) (p : Ptr) (o : Obj) (st : State)
      → st.cell p ≡ some o
      → o.is_str ≡ true
      → as_str (suc n) p st ≡ done true st
  unfolding as_str
  as_str-cell n p o st h e =
      done-bind (load p) _ st o st (load-cell p o st h) ∙ rw e (λ i. done true st)

  obj_hash-IsHashed :
      (n : ℕ) (p : Ptr) (t : Bytes) (st : State)
      → IsText st p t
      → (st' : State) × (obj_hash (suc n) p st ≡ done true st') × IsHashed st' p t × Kept st st'
  unfolding obj_hash store
  obj_hash-IsHashed n p t st x = elim (Bool-cases x.obj.is_hashed) [
    | inl y ↦ (
      st,
      obj_hash-cell (suc n) p x.obj st x.is_there y,
      record {
        obj = x.obj;
        is_there = x.is_there;
        has_text = (x.has_text.0, x.has_text.1, x.hashes y);
      },
      record { bools = (refl, refl); texts = λ q u k. k; hashes = λ q u k. k },
    )
    | inr u ↦ (
      put st p (hashed x.obj),
      done-bind (load p) _ st x.obj st (load-cell p x.obj st x.is_there)
          ∙ rw u (
              done-bind (as_str (suc n) p) _ st true st
                (as_str-cell n p x.obj st x.is_there x.has_text.0)
              ∙ done-bind (load p) _ st x.obj st (load-cell p x.obj st x.is_there)),
      record {
        obj = hashed x.obj;
        is_there = update_same st.cell p (some (hashed x.obj));
        has_text = (x.has_text.0, x.has_text.1, ap hash x.has_text.1);
      },
      put-hashed st p x.obj x.is_there,
    )
  ]

  -- The answer is `b`, as the object of the interpreter that stands for it.
  abbrev Answers : State → State → Bool → Type 0
  Answers st st' b = st'.under ≡ (if b then st.one else st.zero_obj)

  obj_eq-Occurs :
      (o o' : Obj) (a b : Bytes)
      → (o.s ≡ a) × (o.hash ≡ hash a)
      → (o'.s ≡ b) × (o'.hash ≡ hash b)
      → length b ≡ length a
      → (obj_eq o o' ≡ true) ↔ Occurs a b
  unfolding obj_eq
  obj_eq-Occurs o o' a b (p, q) (p', q') l = (
    λ h.
        let same : o.s ≡ o'.s = (bytes_eq_iff o.s o'.s).0 (ground (arith, h)) in
        ([], [], sym p' ∙ sym same ∙ p ∙ sym (append-nil a)),
    λ u.
        let e = Occurs-same a b l u in
        let same : o.s ≡ o'.s = p ∙ e ∙ sym p' in
        let code : o.hash ≡ o'.hash = q ∙ ap hash e ∙ sym q' in
        rw (same, code) (ground (arith, bytes_eq_refl o'.s)),
  )

  same_texts-Occurs :
      (n : ℕ) (sub s : Ptr) (a b : Bytes) (st : State)
      → IsText st sub a
      → IsText st s b
      → length b ≡ length a
      → (found : Bool) × (st' : State) × (same_texts (suc n) sub s st ≡ done ok st')
        × Answers st st' found
        × ((found ≡ true) ↔ Occurs a b)
  unfolding same_texts return_bool
  same_texts-Occurs n sub s a b st x y l =
      let (st1, e1, h1, k1) = obj_hash-IsHashed n s b st y in
      let (st2, e2, h2, k2) = obj_hash-IsHashed n sub a st1 (k1.texts sub a x) in
      let h1' = k2.hashes s b h1 in
      let f = obj_eq h2.obj h1'.obj in
      let under = if f then st2.one else st2.zero_obj in
      (
        f,
        record st2 { under = under },
        done-bind (obj_hash (suc n) s) _ st true st1 e1
            ∙ done-bind (obj_hash (suc n) sub) _ st1 true st2 e2
            ∙ done-bind (load sub) _ st2 h2.obj st2 (load-cell sub h2.obj st2 h2.is_there)
            ∙ done-bind (load s) _ st2 h1'.obj st2 (load-cell s h1'.obj st2 h1'.is_there),
        ground (arith, k1.bools, k2.bools),
        obj_eq-Occurs h2.obj h1'.obj a b (h2.has_text.1, h2.has_text.2)
            (h1'.has_text.1, h1'.has_text.2) l,
      )

  loaded :
      (n : ℕ) (sub s : Ptr) (a b : Bytes) (st : State)
      → IsText st sub a
      → IsText st s b
      → in_texts n sub s st
        ≡ (if is_empty a
              then pure err
              else if ltb (length a) (length b)
              then return_bool (found_in (length b - length a + 1) a b)
              else if length b == length a
              then same_texts n sub s
              else return_bool false)
            st
  unfolding in_texts
  loaded n sub s a b st x y =
      done-bind (load sub) _ st x.obj st (load-cell sub x.obj st x.is_there)
      ∙ done-bind (load s) _ st y.obj st (load-cell s y.obj st y.is_there)
      ∙ rw (x.has_text.1, y.has_text.1) refl

  -- Of two objects with their texts, and with the hashes of these where they are hashed, str.in fails
  -- where the text that is looked for is empty; else it answers with the true or the false object of
  -- the interpreter, the true one exactly where the first text stands somewhere in the second.
  -- The two may be one object.
  pub in_texts-Occurs :
      (n : ℕ) (sub s : Ptr) (a b : Bytes) (st : State)
      → IsText st sub a
      → IsText st s b
      → (a ≡ [] → in_texts (suc n) sub s st ≡ done err st)
        × (a ≢ []
            → (found : Bool) × (st' : State) × (in_texts (suc n) sub s st ≡ done ok st')
              × (st'.under ≡ (if found then st.one else st.zero_obj))
              × ((found ≡ true) ↔ Occurs a b))
  unfolding return_bool
  in_texts-Occurs n sub s [] b st x y =
      ((λ e. loaded (suc n) sub s [] b st x y), λ ne. absurd (ne refl))
  in_texts-Occurs n sub s (z ∷ a) b st x y =
      let get = loaded (suc n) sub s (z ∷ a) b st x y in
      (
        (λ e. absurd (cc)),
        λ ne. elim (Bool-cases (ltb (length (z ∷ a)) (length b))) [
          | inl l ↦
              let f = found_in (length b - length (z ∷ a) + 1) (z ∷ a) b in
              (
                f,
                record st { under = if f then st.one else st.zero_obj },
                get ∙ rw l refl,
                refl,
                found_in_iff (z ∷ a) b (ground (arith, l)),
              )
          | inr l ↦ elim (Bool-cases (length b == length (z ∷ a))) [
            | inl q ↦
                let (f, st', e, u, i) =
                  same_texts-Occurs n sub s (z ∷ a) b st x y (ground (arith, q)) in
                (f, st', get ∙ rw (l, q) e, u, i)
            | inr q ↦ (
              false,
              record st { under = st.zero_obj },
              get ∙ rw (l, q) refl,
              refl,
              ((λ t. absurd (cc)), λ o. absurd (ground (arith, l, q, length-Occurs (z ∷ a) b o))),
            )
          ]
        ],
      )
