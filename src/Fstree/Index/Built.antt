-- ===== src/Fstree/Index/Built.antt =====
-- `finish` of src/fstree/builder.rs closes the index of a file under one root.
use core_rs.Prelude.{
  ℕ, zero, suc, ◌+◌, ◌≤◌, ◌<◌, ◌≡◌, ◌⊎◌, refl, sym, ap, ◌∙◌, subst, arith, false, some, List, [],
  ◌∷◌, ◌++◌, append-nil, append_assoc, map, length, length-append, inl, inr, ok,
}
use core_rs.Prelude.Bytes.{Bytes}
use core_rs.Key.{Key}
use core_rs.Fstree.{Object, encode_file_node}
use core_rs.Fstree.Index.{
  IdxLevel, Step, and_then, build_node, with_sep, emitted, add, finish_at, rounds, finish,
  build_from, build,
}
use core_rs.Fstree.Index.Spelled.{
  Log, log_object, Spells, spell_nil, spell_child, spell_node, Emitted-last, Spells-more,
  encode_file_node-some, ic, Open, Open-more, Added, add_at-Added,
}

three_ways :
    (ks : List Key)
    → (ks ≡ []) ⊎ (((k : Key) × (ks ≡ k ∷ [])) ⊎ ((m : ℕ) × (length ks ≡ suc (suc m))))
three_ways [] = inl refl
three_ways (k ∷ []) = inr (inl (k, refl))
three_ways (k ∷ k' ∷ ks) = inr (inr (length ks, refl))

module _ (blake3 : Bytes → Bytes) where
  Spells-nil : {log : Log} {ks xs : List Key} → Spells blake3 log ks xs → ks ≡ [] → xs ≡ []
  Spells-nil spell_nil e = refl
  Spells-nil (spell_child s) e = absurd (ground arith)
  Spells-nil (spell_node a b c s) e = absurd (ground arith)

  module _ (bits : ℕ) (few : bits < 62) where
    abbrev plus : Log → List IdxLevel → Key → Step (Unit {0}) (Log × List IdxLevel)
    plus log levels ck = add blake3 (ic blake3 bits) false log_object log levels ck []

    abbrev fin : ℕ → Log → List IdxLevel → Step (Unit {0}) (Log × Key)
    fin = finish_at blake3 (ic blake3 bits) false log_object

    abbrev rnds : List IdxLevel → ℕ
    rnds = rounds blake3 (ic blake3 bits) false log_object

    finish_zero :
        (fuel : ℕ) (log : Log) (level : IdxLevel) (above : List IdxLevel)
        → level.run_len ≡ 0
        → fin (suc fuel) log (level ∷ above) ≡ fin fuel log above
    unfolding finish_at
    finish_zero fuel log level above e = rw (finish_at, e) refl

    finish_top :
        (fuel : ℕ) (log : Log) (level : IdxLevel) (ck : Key)
        → level.run_len ≡ 1
        → level.keys ≡ ck ∷ []
        → fin (suc fuel) log (level ∷ []) ≡ some (ok (log, ck))
    unfolding finish_at
    finish_top fuel log level ck e f = rw (finish_at, e, f) refl

    finish_one :
        (fuel : ℕ) (log log' : Log) (level next : IdxLevel) (above levels' : List IdxLevel)
        (ck : Key)
        → level.run_len ≡ 1
        → level.keys ≡ ck ∷ []
        → plus log (next ∷ above) ck ≡ some (ok (log', levels'))
        → fin (suc fuel) log (level ∷ next ∷ above) ≡ fin fuel log' levels'
    unfolding finish_at and_then
    finish_one fuel log log' level next above levels' ck e f g = rw (finish_at, e, f, g) refl

    finish_many :
        (fuel m : ℕ) (log log' : Log) (level : IdxLevel) (above levels' : List IdxLevel)
        (o : Object)
        → level.run_len ≡ suc (suc m)
        → encode_file_node blake3 level.keys ≡ some o
        → plus (log ++ o ∷ []) above o.key ≡ some (ok (log', levels'))
        → fin (suc fuel) log (level ∷ above) ≡ fin fuel log' levels'
    unfolding finish_at and_then build_node with_sep emitted
    finish_many fuel m log log' level above levels' o e f g =
        rw (finish_at, e, build_node, f, g) refl

    record Closed (log : Log) (xs : List Key) (step : Step (Unit {0}) (Log × Key)) : Type 0 where
      log' : Log
      root : Key
      more : Log
      stepped : step ≡ some (ok (log', root))
      longer : log' ≡ log ++ more
      spelled : Spells blake3 log' (root ∷ []) xs

    -- A step that goes on from a later log.
    continued :
        (log later more : Log) (xs ws : List Key) (here there : Step (Unit {0}) (Log × Key))
        → here ≡ there
        → later ≡ log ++ more
        → xs ≡ ws
        → Closed later ws there
        → Closed log xs here
    continued log later more xs ws here there e l same c = record {
      log' = c.log';
      root = c.root;
      more = more ++ c.more;
      stepped = e ∙ c.stepped;
      longer = c.longer ∙ ap (λ x. x ++ c.more) l ∙ append_assoc log more c.more;
      spelled = subst (λ w. Spells blake3 c.log' (c.root ∷ []) w) (sym same) c.spelled;
    }

    add-Added :
        (log : Log) (levels : List IdxLevel) (ck : Key) (sep : Bytes) (xs ws : List Key)
        → Open blake3 bits log levels xs
        → Spells blake3 log (ck ∷ []) ws
        → Added blake3 bits log levels
            (xs ++ ws)
            (add blake3 (ic blake3 bits) false log_object log levels ck sep)
    unfolding add
    add-Added log levels ck sep xs ws i s =
        add_at-Added blake3 bits (length levels + 2) log levels ck sep xs ws few (omega arith) i s

    -- A run of one child: the root at the top, or a child of the level above.
    single :
        (fuel : ℕ) (log : Log) (level : IdxLevel) (above : List IdxLevel) (xs ys zs : List Key)
        (ck : Key)
        → Open blake3 bits log above ys
        → Spells blake3 log level.keys zs
        → xs ≡ ys ++ zs
        → level.run_len ≡ 1
        → level.keys ≡ ck ∷ []
        → rnds above + 2 < fuel
        → ((log2 : Log) (levels2 : List IdxLevel)
            → Open blake3 bits log2 levels2 xs
            → rnds levels2 < fuel
            → Closed log2 xs (fin fuel log2 levels2))
        → Closed log xs (fin (suc fuel) log (level ∷ above))
    unfolding Open
    single fuel log level [] xs ys zs ck i s e run one h ih = record {
      log' = log;
      root = ck;
      more = [];
      stepped = finish_top fuel log level ck run one;
      longer = sym (append-nil log);
      spelled =
          subst (λ w. Spells blake3 log (ck ∷ []) w) (sym (e ∙ ap (λ l. l ++ zs) i))
            (subst (λ l. Spells blake3 log l zs) one s);
    }
    single fuel log level (next ∷ above) xs ys zs ck i s e run one h ih =
        let a =
          add-Added log (next ∷ above) ck [] ys zs i (subst (λ l. Spells blake3 log l zs) one s) in
        let step = finish_one fuel log a.log' level next above a.levels' ck run one a.stepped in
        let opened = subst (λ w. Open blake3 bits a.log' a.levels' w) (sym e) a.opened in
        continued log a.log' a.more xs xs (fin (suc fuel) log (level ∷ next ∷ above))
          (fin fuel a.log' a.levels') step a.longer refl
          (ih a.log' a.levels' opened (omega (arith, a.fewer_inside (omega arith), h)))

    finish_at-Closed :
        (fuel : ℕ) (log : Log) (levels : List IdxLevel) (xs : List Key)
        → Open blake3 bits log levels xs
        → 1 ≤ length xs
        → rnds levels < fuel
        → Closed log xs (fin fuel log levels)
    unfolding Open rounds
    finish_at-Closed zero log levels xs i some_x h = absurd (omega arith)
    finish_at-Closed (suc fuel) log [] xs i some_x h = absurd (ground (arith, ap length i))
    finish_at-Closed (suc fuel) log (level ∷ above) xs (ys, zs, i, s, e, n) some_x h =
        elim (three_ways level.keys) [
          | inl empty ↦
              let gone : zs ≡ [] = Spells-nil s empty in
              let same : xs ≡ ys = e ∙ ap (λ l. ys ++ l) gone ∙ append-nil ys in
              let step = finish_zero fuel log level above (n ∙ ap length empty) in
              let ih =
                finish_at-Closed fuel log above ys i (omega (arith, some_x, ap length same))
                  (omega (arith, h)) in
              continued log log [] xs ys (fin (suc fuel) log (level ∷ above)) (fin fuel log above)
                step (sym (append-nil log)) same ih
          | inr (inl (ck, one)) ↦
              single fuel log level above xs ys zs ck i s e (n ∙ ap length one) one
                (omega (arith, h, ap length one))
                (λ log2 levels2 i2 l2. finish_at-Closed fuel log2 levels2 xs i2 some_x l2)
          | inr (inr (m, two)) ↦
              let (o, f) = encode_file_node-some blake3 level.keys in
              let log_o : Log = log ++ o ∷ [] in
              let node : Spells blake3 log_o (o.key ∷ []) zs =
                subst (λ w. Spells blake3 log_o (o.key ∷ []) w) (append-nil zs)
                  (spell_node (Emitted-last blake3 log o) f (Spells-more blake3 (o ∷ []) s)
                    spell_nil) in
              let a =
                add-Added log_o above o.key [] ys zs (Open-more blake3 bits log (o ∷ []) above ys i)
                  node in
              let step =
                finish_many fuel m log a.log' level above a.levels' o (n ∙ two) f a.stepped in
              let less : rnds a.levels' < fuel = omega (arith, a.fewer, two, h) in
              let ih =
                finish_at-Closed fuel a.log' a.levels' (ys ++ zs) a.opened
                  (omega (arith, some_x, ap length e)) less in
              let later : a.log' ≡ log ++ (o ∷ a.more) =
                a.longer ∙ append_assoc log (o ∷ []) a.more in
              continued log a.log' (o ∷ a.more) xs (ys ++ zs) (fin (suc fuel) log (level ∷ above))
                (fin fuel a.log' a.levels') step later e ih
        ]

    build_from-Closed :
        (cs : List (Key × Bytes)) (log : Log) (levels : List IdxLevel) (xs : List Key)
        → Open blake3 bits log levels xs
        → 1 ≤ length xs + length cs
        → Closed log
            (xs ++ map (λ c. c.0) cs)
            (build_from blake3 (ic blake3 bits) false log_object log levels cs)
    unfolding build_from finish and_then
    build_from-Closed [] log levels xs i some_x =
        let c = finish_at-Closed (rnds levels + 1) log levels xs i (omega arith) (omega arith) in
        continued log log [] (xs ++ []) xs _ _ refl (sym (append-nil log)) (append-nil xs) c
    build_from-Closed ((ck, sep) ∷ cs) log levels xs i some_x =
        let a = add-Added log levels ck sep xs (ck ∷ []) i (spell_child spell_nil) in
        let later =
          build_from-Closed cs a.log' a.levels' (xs ++ ck ∷ []) a.opened
            (omega (arith, length-append xs (ck ∷ []))) in
        let start =
          build_from blake3 (ic blake3 bits) false log_object log levels ((ck, sep) ∷ cs) in
        let rest = build_from blake3 (ic blake3 bits) false log_object a.log' a.levels' cs in
        let step : start ≡ rest =
          ap
            (λ st. and_then st (λ (p : Log × List IdxLevel).
              build_from blake3 (ic blake3 bits) false log_object p.0 p.1 cs))
            a.stepped in
        continued log a.log' a.more (xs ++ (ck ∷ map (λ c. c.0) cs))
          ((xs ++ ck ∷ []) ++ map (λ c. c.0) cs) start rest step a.longer
          (sym (append_assoc xs (ck ∷ []) (map (λ c. c.0) cs))) later

-- From one child on, the build of a file's index by a chunker of 2 ^ bits children on
-- average, for fewer than 62 bits, ends with a root, with no error where the caller's `emit` has none. The root stands for exactly the children,
-- in their order: it is the only child, or an emitted node whose children stand for them in turn.
pub build-Spells :
    (blake3 : Bytes → Bytes) (bits : ℕ) (c : Key × Bytes) (cs : List (Key × Bytes))
    → bits < 62
    → (log : Log) × (root : Key) × (build blake3 (ic blake3 bits) false log_object [] (c ∷ cs)
        ≡ some (ok (log, root)))
      × Spells blake3 log (root ∷ []) (map (λ x. x.0) (c ∷ cs))
unfolding build
build-Spells blake3 bits c cs few =
    let r =
      build_from-Closed blake3 bits few (c ∷ cs) [] [] [] (unfold Open in refl) (omega arith) in
    (r.log', r.root, r.stepped, r.spelled)
