-- ===== src/Spsc/Refine.antt =====
-- The queue against a first-in first-out list of at most `capacity` items.
use low_latency_exchange.Prelude.{
  ℕ, suc, ◌+◌, ◌-◌, ◌*◌, ◌%◌, ◌^◌, ◌≤◌, ◌<◌, Bool, true, false, Option, none, some, List, [], ◌∷◌,
  ◌++◌, ◌≡◌, refl, sym, ◌∙◌, ap, arith, inl, inr, Bool-cases, ◌==◌, leb, length, get_or, set,
  length-set, length-append, length-replicate, get_or-set_self, get_or-set_ne, get_or-append_left,
  get_or-append_length, u64_mod, subst,
}
use native.Mathlib.Nat.{mod-lt, pow-le-pow_right}
use low_latency_exchange.Prelude.Bits.{pow-add, bit_and-mask, one-le-two_pow}
use low_latency_exchange.Spsc.{Queue}
use low_latency_exchange.Spsc.Operations.{
  empty_queue, slot, store_item, looks_full, try_push, load_item, try_pop,
}
use low_latency_exchange.Spsc.Indices.{mod_of_mod, distance, same_index, distinct_slots, length-nil}

-- `static_assert`: the capacity is a power of two and at least 2. It is also below 2 ^ 64.
module _ {ℓ} {T : Type ℓ} (blank : T) (k : ℕ) (k_pos : 1 ≤ k) (k_small : k < 64) where
  abbrev pub capacity : ℕ
  capacity = 2 ^ k

  power_below : capacity < u64_mod
  power_below =
      let h : 2 ^ k ≤ 2 ^ 63 = pow-le-pow_right (omega arith) {i = k} {j = 63} (omega arith) in
      omega (arith, h)

  capacity_bounds : (2 ≤ capacity) × (capacity < u64_mod) × (capacity * 2 ^ (64 - k) ≡ u64_mod)
  capacity_bounds = (
    pow-le-pow_right (omega arith) {i = 1} {j = k} k_pos,
    power_below,
    sym (pow-add k (64 - k)) ∙ ap (λ (t : ℕ). 2 ^ t) {y = 64} (omega arith),
  )

  slot-mod : (x : ℕ) → slot capacity blank (x % u64_mod) ≡ x % capacity
  unfolding slot
  slot-mod x =
      bit_and-mask k (x % u64_mod)
      ∙ ap (λ (t : ℕ). x % t % capacity) (sym capacity_bounds.2)
      ∙ mod_of_mod x capacity (2 ^ (64 - k)) (one-le-two_pow k)

  -- The queue holds `items`, oldest first, and `r` items have been taken before. The cached indices
  -- lag behind the shared ones.
  pub record Holds (q : Queue T) (r : ℕ) (items : List T) : Type ℓ where
    pub storage : length q.buffer ≡ capacity
    pub bounded : length items ≤ capacity
    pub write : q.write_index ≡ (r + length items) % u64_mod
    pub read : q.read_index ≡ r % u64_mod
    pub cr : ℕ
    pub cached_read : q.cached_read_index ≡ cr % u64_mod
    pub cr_le : cr ≤ r
    pub cr_near : r + length items ≤ cr + capacity
    pub cw : ℕ
    pub cached_write : q.cached_write_index ≡ cw % u64_mod
    pub cw_ge : r ≤ cw
    pub cw_le : cw ≤ r + length items
    pub stored :
        (i : ℕ)
        → i < length items
        → get_or q.buffer ((r + i) % capacity) blank ≡ get_or items i blank

  pub empty_queue-Holds : Holds (empty_queue capacity blank) 0 []
  unfolding empty_queue
  empty_queue-Holds = record {
    storage = length-replicate capacity blank;
    bounded = omega arith;
    write = refl;
    read = refl;
    cr = 0;
    cached_read = refl;
    cr_le = omega arith;
    cr_near = omega arith;
    cw = 0;
    cached_write = refl;
    cw_ge = omega arith;
    cw_le = omega arith;
    stored = λ i h. absurd (omega (arith, h));
  }

  -- A store at the write index, where the cached index says that there is room.
  store_item-Holds :
      (q : Queue T) (r : ℕ) (items : List T) (item : T) (h : Holds q r items)
      → r + length items < h.cr + capacity
      → Holds (store_item capacity blank item q) r (items ++ item ∷ [])
  unfolding store_item
  store_item-Holds q r items item h room =
      let len : length (items ++ item ∷ []) ≡ suc (length items) =
        length-append items (item ∷ []) ∙ omega arith in
      let at : slot capacity blank q.write_index ≡ (r + length items) % capacity =
        ap (slot capacity blank) h.write ∙ slot-mod (r + length items) in
      let inside : (r + length items) % capacity < length q.buffer =
        subst (λ n. (r + length items) % capacity < n) (sym h.storage)
          (mod-lt (r + length items) (one-le-two_pow k)) in
      record {
        storage = length-set q.buffer (slot capacity blank q.write_index) item ∙ h.storage;
        bounded = omega (arith, len, room, h.cr_le);
        write = omega (arith, len, h.write);
        read = h.read;
        cr = h.cr;
        cached_read = h.cached_read;
        cr_le = h.cr_le;
        cr_near = omega (arith, len, room);
        cw = h.cw;
        cached_write = h.cached_write;
        cw_ge = h.cw_ge;
        cw_le = omega (arith, len, h.cw_le);
        stored = λ i lt. rw at (elim (Bool-cases (i == length items)) [
          | inl e ↦
              let same : i ≡ length items = ground (arith, e) in
              ap
                (λ (t : ℕ).
                  get_or (set q.buffer ((r + length items) % capacity) item) ((r + t) % capacity)
                    blank)
                same
              ∙ get_or-set_self q.buffer ((r + length items) % capacity) item blank inside
              ∙ sym (
                  ap (λ (t : ℕ). get_or (items ++ item ∷ []) t blank) same
                  ∙ get_or-append_length items item blank)
          | inr e ↦
              get_or-set_ne q.buffer item blank (λ s.
                distinct_slots (r + i) (r + length items) capacity (ground (arith, e, len, lt))
                  (omega (arith, room, h.cr_le)) (sym s))
              ∙ h.stored i (ground (arith, e, len, lt))
              ∙ sym (get_or-append_left items (item ∷ []) i blank (ground (arith, e, len, lt)))
        ]);
      }

  -- The load of the other thread's index keeps what the queue holds.
  refreshed_read :
      (q : Queue T) (r : ℕ) (items : List T)
      → Holds q r items
      → (h : Holds (record q { cached_read_index = q.read_index }) r items) × (h.cr ≡ r)
  refreshed_read q r items h = (
    record {
      storage = h.storage;
      bounded = h.bounded;
      write = h.write;
      read = h.read;
      cr = r;
      cached_read = h.read;
      cr_le = omega arith;
      cr_near = omega (arith, h.bounded);
      cw = h.cw;
      cached_write = h.cached_write;
      cw_ge = h.cw_ge;
      cw_le = h.cw_le;
      stored = h.stored;
    },
    refl,
  )

  looks_full_lem :
      (q : Queue T) (r : ℕ) (items : List T) (h : Holds q r items)
      → looks_full capacity blank q ≡ leb capacity (r + length items - h.cr)
  unfolding looks_full
  looks_full_lem q r items h =
      rw (h.write, h.cached_read)
        (ap (leb capacity) (
          distance (r + length items) h.cr (omega (arith, h.cr_le))
            (omega (arith, h.cr_near, power_below))))

  -- What `try_push` gives: the item at the end of the queue, or a refusal of a full one.
  pub data Pushed (r : ℕ) (items : List T) (item : T) (result : Queue T × Bool) : Type ℓ where
    stored_last :
        length items < capacity
        → result.1 ≡ true
        → Holds result.0 r (items ++ item ∷ [])
        → Pushed r items item result
    refused :
        length items ≡ capacity
        → result.1 ≡ false
        → Holds result.0 r items
        → Pushed r items item result

  -- `try_push` on a queue that holds `items` puts the item behind them if fewer than `capacity` are
  -- there, and otherwise refuses it, whatever the producer has cached and however the indices wrap.
  pub try_push-Pushed :
      (q : Queue T) (r : ℕ) (items : List T) (item : T)
      → Holds q r items
      → Pushed r items item (try_push capacity blank item q)
  unfolding try_push
  try_push-Pushed q r items item h = elim (Bool-cases (looks_full capacity blank q)) [
    | inr roomy ↦
        let near : r + length items < h.cr + capacity =
          ground (arith, roomy, looks_full_lem q r items h, h.cr_le) in
        rw (roomy, try_push)
          (stored_last (omega (arith, near, h.cr_le)) refl (store_item-Holds q r items item h near))
    | inl tight ↦
        let q' : Queue T = record q { cached_read_index = q.read_index } in
        let (h', fresh) = refreshed_read q r items h in
        elim (Bool-cases (looks_full capacity blank q')) [
          | inl packed ↦
              rw (tight, packed, try_push)
                (refused (ground (arith, packed, fresh, looks_full_lem q' r items h', h.bounded))
                  refl h')
          | inr roomy ↦
              let near : r + length items < h'.cr + capacity =
                ground (arith, roomy, looks_full_lem q' r items h', h'.cr_le) in
              rw (tight, roomy, try_push)
                (stored_last (omega (arith, near, fresh)) refl
                  (store_item-Holds q' r items item h' near))
        ]
  ]

  pub data Popped (r : ℕ) (items : List T) (result : Queue T × Option T) : Type ℓ where
    taken :
        (x : T) (rest : List T)
        → items ≡ x ∷ rest
        → result.1 ≡ some x
        → Holds result.0 (suc r) rest
        → Popped r items result
    nothing : items ≡ [] → result.1 ≡ none → Holds result.0 r items → Popped r items result

  refreshed_write :
      (q : Queue T) (r : ℕ) (items : List T)
      → Holds q r items
      → (h : Holds (record q { cached_write_index = q.write_index }) r items) × (h.cw
          ≡ r + length items)
  refreshed_write q r items h = (
    record {
      storage = h.storage;
      bounded = h.bounded;
      write = h.write;
      read = h.read;
      cr = h.cr;
      cached_read = h.cached_read;
      cr_le = h.cr_le;
      cr_near = h.cr_near;
      cw = r + length items;
      cached_write = h.write;
      cw_ge = omega arith;
      cw_le = omega arith;
      stored = h.stored;
    },
    refl,
  )

  looks_empty_lem :
      (q : Queue T) (r : ℕ) (items : List T) (h : Holds q r items)
      → q.read_index == q.cached_write_index ≡ true
      → h.cw ≡ r
  looks_empty_lem q r items h e =
      same_index h.cw r h.cw_ge (omega (arith, h.cw_le, h.bounded, power_below))
        (ground (arith, e, h.read, h.cached_write))

  looks_filled_lem :
      (q : Queue T) (r : ℕ) (items : List T) (h : Holds q r items)
      → q.read_index == q.cached_write_index ≡ false
      → r < h.cw
  looks_filled_lem q r items h e = ground (arith, e, h.read, h.cached_write, h.cw_ge)

  load_item-Popped :
      (q : Queue T) (r : ℕ) (items : List T) (h : Holds q r items)
      → r < h.cw
      → Popped r items (load_item capacity blank q)
  unfolding load_item
  load_item-Popped q r [] h lt = absurd (omega (arith, h.cw_le, lt))
  load_item-Popped q r (x ∷ rest) h lt =
      taken x rest refl
        (rw (ap (slot capacity blank) h.read ∙ slot-mod r) (
          ap some (
            ap (λ (t : ℕ). get_or q.buffer (t % capacity) blank) {y = r + 0} (omega arith)
            ∙ h.stored 0 (omega arith))))
        (record {
          storage = h.storage;
          bounded = omega (arith, h.bounded);
          write = omega (arith, h.write);
          read = omega (arith, h.read);
          cr = h.cr;
          cached_read = h.cached_read;
          cr_le = omega (arith, h.cr_le);
          cr_near = omega (arith, h.cr_near);
          cw = h.cw;
          cached_write = h.cached_write;
          cw_ge = omega (arith, lt);
          cw_le = omega (arith, h.cw_le);
          stored = λ i i_lt.
              ap (λ (t : ℕ). get_or q.buffer (t % capacity) blank) {y = r + suc i} (omega arith)
              ∙ h.stored (suc i) (omega (arith, i_lt));
        })

  -- `try_pop` on a queue that holds `items` takes the first of them, and reports an empty queue only if
  -- there is none, whatever the consumer has cached and however the indices wrap.
  pub try_pop-Popped :
      (q : Queue T) (r : ℕ) (items : List T)
      → Holds q r items
      → Popped r items (try_pop capacity blank q)
  unfolding try_pop
  try_pop-Popped q r items h = elim (Bool-cases (q.read_index == q.cached_write_index)) [
    | inr more ↦
        rw (more, try_pop) (load_item-Popped q r items h (looks_filled_lem q r items h more))
    | inl stale ↦
        let q' : Queue T = record q { cached_write_index = q.write_index } in
        let (h', fresh) = refreshed_write q r items h in
        elim (Bool-cases (q.read_index == q.write_index)) [
          | inl done ↦
              rw (stale, done, try_pop)
                (nothing
                  (length-nil items (omega (arith, fresh, looks_empty_lem q' r items h' done))) refl
                  h')
          | inr more ↦
              rw (stale, more, try_pop)
                (load_item-Popped q' r items h' (looks_filled_lem q' r items h' more))
        ]
  ]
