-- ===== src/Fstree/Index/Spelled.antt =====
-- The index that `IndexBuilder` (src/fstree/builder.rs) makes of a file's children spells them out.
use core_rs.Prelude.{
  ℕ, zero, suc, ◌+◌, ◌≤◌, ◌<◌, ◌≡◌, refl, sym, ap, ◌∙◌, subst, arith, true, false, some, List, [],
  ◌∷◌, ◌++◌, append-nil, append_assoc, length, length-append, Bool-cases, Option-cases, inl, inr,
  Result, ok, ◌==◌,
}
use core_rs.Prelude.Bytes.{Bytes}
use core_rs.Prelude.Bytes.{pow_2_pos}
use core_rs.Key.{Key}
use core_rs.Key as KeyModule
use core_rs.Chunkers.Items.{ItemChunker, is_boundary, is_boundary_exact, new}
use core_rs.Fstree.{Object, encode_file_node, object, with_key}
use core_rs.Fstree.Index.{
  IdxLevel, empty_level, ensure, Step, and_then, push_child, item_enc, build_node, with_sep,
  emitted, on_reset, add_at, rounds,
}

-- The objects emitted so far; nothing fails.
abbrev pub Log : Type 0
Log = List Object

abbrev pub log_object : Log → Object → Result (Unit {0}) Log
log_object log o = ok (log ++ o ∷ [])

pub data Emitted (o : Object) : Log → Type 0 where
  here : {log : Log} → Emitted o (o ∷ log)
  there : {p : Object} {log : Log} → Emitted o log → Emitted o (p ∷ log)

module _ (blake3 : Bytes → Bytes) where
  -- What keys stand for: a child for itself, and an emitted node for what its children stand for.
  pub data Spells (log : Log) : List Key → List Key → Type 0 where
    spell_nil : Spells log [] []
    spell_child : {k : Key} {ks ys : List Key} → Spells log ks ys → Spells log (k ∷ ks) (k ∷ ys)
    spell_node :
        {o : Object} {children ks xs ys : List Key}
        → Emitted o log
        → encode_file_node blake3 children ≡ some o
        → Spells log children xs
        → Spells log ks ys
        → Spells log (o.key ∷ ks) (xs ++ ys)

  Emitted-append : {o : Object} {log : Log} (more : Log) → Emitted o log → Emitted o (log ++ more)
  Emitted-append more here = here
  Emitted-append more (there e) = there (Emitted-append more e)

  pub Emitted-last : (log : Log) (o : Object) → Emitted o (log ++ o ∷ [])
  Emitted-last [] o = here
  Emitted-last (p ∷ log) o = there (Emitted-last log o)

  pub Spells-more :
      {log : Log} {ks xs : List Key} (more : Log) → Spells log ks xs → Spells (log ++ more) ks xs
  Spells-more more spell_nil = spell_nil
  Spells-more more (spell_child s) = spell_child (Spells-more more s)
  Spells-more more (spell_node e f c s) =
      spell_node (Emitted-append more e) f (Spells-more more c) (Spells-more more s)

  Spells-append :
      {log : Log} {ks ls xs ys : List Key}
      → Spells log ks xs
      → Spells log ls ys
      → Spells log (ks ++ ls) (xs ++ ys)
  Spells-append spell_nil t = t
  Spells-append (spell_child s) t = spell_child (Spells-append s t)
  Spells-append {log} {ls = ls} {ys = ys}
        (spell_node {o} {children} {ks = ks'} {xs = xs'} {ys = zs} e f c s) t =
      subst (λ w. Spells log (o.key ∷ (ks' ++ ls)) w) (sym (append_assoc xs' zs ys))
        (spell_node e f c (Spells-append s t))

  pub encode_file_node-some :
      (children : List Key) → (o : Object) × (encode_file_node blake3 children ≡ some o)
  encode_file_node-some children = elim (Option-cases (encode_file_node blake3 children)) [
    | inr found ↦ found
    | inl e ↦ absurd (
        unfold encode_file_node object with_key KeyModule.new KeyModule.new_from_hash in
        ground arith)
  ]

  module _ (bits : ℕ) where
    abbrev pub ic : ItemChunker
    ic = new bits

    one_no_boundary : bits < 62 → (enc : Bytes) → is_boundary blake3 ic enc 1 ≡ false
    one_no_boundary b enc = is_boundary_exact blake3 bits enc 1 b ∙ ground (arith, pow_2_pos bits)

    abbrev go : ℕ → Log → List IdxLevel → Key → Bytes → Step (Unit {0}) (Log × List IdxLevel)
    go = add_at blake3 ic false log_object

    -- The two ways of a step of `add`.
    add_at_open :
        (fuel : ℕ) (log : Log) (levels : List IdxLevel) (ck : Key) (sep : Bytes)
        → is_boundary blake3 ic ck.bytes ((ensure levels).0.run_len + 1) ≡ false
        → go (suc fuel) log levels ck sep
          ≡ some (ok (log, push_child blake3 ic false (ensure levels).0 ck sep ∷ (ensure levels).1))
    unfolding add_at push_child item_enc
    add_at_open fuel log levels ck sep e = rw (add_at, e) refl

    add_at_close :
        (fuel : ℕ) (log log' : Log) (levels above' : List IdxLevel) (ck : Key) (sep : Bytes)
        (o : Object)
        → is_boundary blake3 ic ck.bytes ((ensure levels).0.run_len + 1) ≡ true
        → encode_file_node blake3 ((ensure levels).0.keys ++ ck ∷ []) ≡ some o
        → go fuel (log ++ o ∷ []) (ensure levels).1 o.key [] ≡ some (ok (log', above'))
        → go (suc fuel) log levels ck sep ≡ some (ok (log', empty_level ∷ above'))
    unfolding add_at push_child item_enc and_then build_node with_sep emitted on_reset
    add_at_close fuel log log' levels above' ck sep o e f g = rw (add_at, e, build_node, f, g) refl

    -- The open runs spell the children so far, the upper levels first.
    unfoldable pub Open : Log → List IdxLevel → List Key → Type 0
    Open log [] xs = xs ≡ []
    Open log (level ∷ above) xs =
        (ys : List Key) × (zs : List Key) × Open log above ys
        × Spells log level.keys zs
        × (xs ≡ ys ++ zs)
        × (level.run_len ≡ length level.keys)

    -- What `add` makes of levels that spell `xs`: levels that spell `ws`, and little more to do.
    pub record Added (log : Log) (levels : List IdxLevel) (ws : List Key)
        (step : Step (Unit {0}) (Log × List IdxLevel)) : Type 0 where
      pub log' : Log
      pub levels' : List IdxLevel
      pub more : Log
      pub stepped : step ≡ some (ok (log', levels'))
      pub longer : log' ≡ log ++ more
      pub opened : Open log' levels' ws
      pub some_level : 1 ≤ length levels'
      pub fewer :
          rounds blake3 ic false log_object levels' ≤ rounds blake3 ic false log_object levels + 3
      pub fewer_inside :
          1 ≤ length levels
          → rounds blake3 ic false log_object levels' ≤ rounds blake3 ic false log_object levels + 2

    pub Open-more :
        (log more : Log) (levels : List IdxLevel) (xs : List Key)
        → Open log levels xs
        → Open (log ++ more) levels xs
    unfolding Open
    Open-more log more [] xs i = i
    Open-more log more (level ∷ above) xs (ys, zs, i, s, e, n) =
        (ys, zs, Open-more log more above ys i, Spells-more more s, e, n)

    -- A run of one is never closed.
    two_keys :
        (level : IdxLevel) (ck : Key)
        → bits < 62
        → is_boundary blake3 ic ck.bytes (level.run_len + 1) ≡ true
        → level.run_len ≡ length level.keys
        → 1 ≤ length level.keys
    two_keys level ck b close n = elim (Bool-cases (level.run_len == 0)) [
      | inr some_run ↦ ground arith
      | inl no_run ↦
          let one : level.run_len + 1 ≡ 1 = ground arith in
          absurd (cc (close, one_no_boundary b ck.bytes, ap (is_boundary blake3 ic ck.bytes) one))
    ]

    pub add_at-Added :
        (fuel : ℕ) (log : Log) (levels : List IdxLevel) (ck : Key) (sep : Bytes) (xs ws : List Key)
        → bits < 62
        → length levels + 1 ≤ fuel
        → Open log levels xs
        → Spells log (ck ∷ []) ws
        → Added log levels (xs ++ ws) (go fuel log levels ck sep)
    unfolding Open rounds
    add_at-Added zero log levels ck sep xs ws b h i s = absurd (omega arith)
    add_at-Added (suc fuel) log [] ck sep xs ws b h i s =
        let level = push_child blake3 ic false empty_level ck sep in
        record {
          log' = log;
          levels' = level ∷ [];
          more = [];
          stepped = add_at_open fuel log [] ck sep (one_no_boundary b ck.bytes);
          longer = sym (append-nil log);
          opened = unfold push_child in ([], ws, refl, s, ap (λ l. l ++ ws) i, refl);
          some_level = omega arith;
          fewer = unfold push_child in omega arith;
          fewer_inside = λ l. absurd (omega arith);
        }
    add_at-Added (suc fuel) log (level ∷ above) ck sep xs ws b h (ys, zs, i, s', e, n) s =
        let joined : xs ++ ws ≡ ys ++ (zs ++ ws) = ap (λ l. l ++ ws) e ∙ append_assoc ys zs ws in
        let len = length-append level.keys (ck ∷ []) in
        elim (Bool-cases (is_boundary blake3 ic ck.bytes (level.run_len + 1))) [
          | inr stay ↦ record {
            log' = log;
            levels' = push_child blake3 ic false level ck sep ∷ above;
            more = [];
            stepped = add_at_open fuel log (level ∷ above) ck sep stay;
            longer = sym (append-nil log);
            opened =
                unfold push_child in
                (ys, zs ++ ws, i, Spells-append s' s, joined, omega (arith, n, len));
            some_level = omega arith;
            fewer = unfold push_child in omega (arith, len);
            fewer_inside = λ _. unfold push_child in omega (arith, len);
          }
          | inl close ↦
              let (o, f) = encode_file_node-some (level.keys ++ ck ∷ []) in
              let log_o : Log = log ++ o ∷ [] in
              let node : Spells log_o (o.key ∷ []) (zs ++ ws) =
                subst (λ w. Spells log_o (o.key ∷ []) w) (append-nil (zs ++ ws))
                  (spell_node (Emitted-last log o) f (Spells-more (o ∷ []) (Spells-append s' s))
                    spell_nil) in
              let ih =
                add_at-Added fuel log_o above o.key [] ys (zs ++ ws) b (omega arith)
                  (Open-more log (o ∷ []) above ys i) node in
              let some_key : 1 ≤ length level.keys = two_keys level ck b close n in
              record {
                log' = ih.log';
                levels' = empty_level ∷ ih.levels';
                more = o ∷ ih.more;
                stepped =
                    add_at_close fuel log ih.log' (level ∷ above) ih.levels' ck sep o close f
                      ih.stepped;
                longer = ih.longer ∙ append_assoc log (o ∷ []) ih.more;
                opened = (
                  ys ++ (zs ++ ws),
                  [],
                  ih.opened,
                  spell_nil,
                  joined ∙ sym (append-nil (ys ++ (zs ++ ws))),
                  refl,
                );
                some_level = omega arith;
                fewer = omega (arith, ih.fewer, some_key);
                fewer_inside = λ _. omega (arith, ih.fewer, some_key);
              }
        ]
