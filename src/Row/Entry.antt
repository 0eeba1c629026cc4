-- ===== src/Row/Entry.antt =====
-- What a row holds, and how its reads and writes act on that.
use bitprim_database.Prelude.{
  ℕ, suc, ◌+◌, ◌≤◌, ◌<◌, ◌^◌, ◌≡◌, ◌∙◌, sym, ◌⊎◌, inl, inr, true, arith, leb_no, length, Bytes,
  bytes_eq,
}
use bitprim_database.Run.{ok, fault, ◌>>=◌}
use bitprim_database.Bytes.{read_bytes_congr, write_bytes_outside}
use bitprim_database.Endian.{Endian, to_le}
use bitprim_database.MemoryMap.{MemoryMap, load}
use bitprim_database.MemoryMap.Access.{
  Covers, Reads, written, load-Reads, save-ok, written-Reads, written_apart,
}
use bitprim_database.Row.{
  Layout, prefix_size, raw_data, data_of, populate, compare, write_next, next_of,
}

pub record Entry : Type 0 where
  pub link : ℕ
  pub key : Bytes
  pub value : Bytes

-- `g` has at least the mapping of `f`, and the same bytes from `lo` up to `hi`.
pub record Agrees (lo hi : ℕ) (f g : MemoryMap) : Type 0 where
  pub mapped : g.mapped ≡ true
  pub grows : f.file_size ≤ g.file_size
  pub same : (a : ℕ) → lo ≤ a → a < hi → g.bytes a ≡ f.bytes a

pub Agrees-written :
    {lo hi : ℕ} (f : MemoryMap) (a : ℕ) (bs : Bytes)
    → f.mapped ≡ true
    → ((x : ℕ) → lo ≤ x → x < hi → (x < a) ⊎ (a + length bs ≤ x))
    → Agrees lo hi f (written f a bs)
Agrees-written f a bs m h = record {
  mapped = m;
  grows = omega arith;
  same = λ x l r. write_bytes_outside f.bytes a bs x (h x l r);
}

pub Reads_congr :
    {f g : MemoryMap} {lo hi : ℕ} (a : ℕ) (bs : Bytes)
    → Agrees lo hi f g
    → lo ≤ a
    → a + length bs ≤ hi
    → Reads f a bs
    → Reads g a bs
Reads_congr {f} {g} a bs s l r h =
    read_bytes_congr f.bytes g.bytes a (length bs) (λ x p q. s.same x (omega arith) (omega arith))
    ∙ h

module _ (L : Layout) where
  -- The bytes that a row takes.
  abbrev pub size : Entry → ℕ
  size e = prefix_size L + length e.value

  -- A row without its link.
  pub record IsBody (file : MemoryMap) (e : Entry) : Type 0 where
    pub covers : Covers file (L.address e.link + size e)
    pub keyed : length e.key ≡ L.key_size
    pub used : suc e.link < 256 ^ L.width
    pub key : Reads file (raw_data L e.link 0) e.key
    pub value : Reads file (data_of L e.link) e.value

  pub IsBody-congr :
      {f g : MemoryMap} {e : Entry} {lo hi : ℕ}
      → Agrees lo hi f g
      → lo ≤ L.address e.link
      → L.address e.link + size e ≤ hi
      → IsBody f e
      → IsBody g e
  IsBody-congr {e} s l r b = record {
    covers = record { mapped = s.mapped; within = omega (arith, b.covers.within, s.grows) };
    keyed = b.keyed;
    used = b.used;
    key = Reads_congr _ e.key s (omega arith) (omega (arith, b.keyed)) b.key;
    value = Reads_congr _ e.value s (omega arith) (omega arith) b.value;
  }

  -- What `populate` makes of free space.
  pub populate-IsBody :
      (f : MemoryMap) (e : Entry)
      → Covers f (L.address e.link + size e)
      → length e.key ≡ L.key_size
      → suc e.link < 256 ^ L.width
      → let g =
          written
            (written f (raw_data L e.link 0) e.key)
            (raw_data L e.link (prefix_size L))
            e.value in
        (populate L f e.link e.key e.value ≡ ok g) × IsBody g e
  unfolding populate
  populate-IsBody f e c k u =
      let f₁ = written f (raw_data L e.link 0) e.key in
      let fits : L.address e.link + size e ≤ f.file_size = c.within in
      (
        rw (
          save-ok f (raw_data L e.link 0) e.key
              (record { mapped = c.mapped; within = omega arith }),
          ◌>>=◌,
          save-ok f₁ (raw_data L e.link (prefix_size L)) e.value
              (record { mapped = c.mapped; within = omega arith }),
        ),
        record {
          covers = record { mapped = c.mapped; within = fits };
          keyed = k;
          used = u;
          key = written_apart f₁ _ e.value _ e.key (inl (omega arith)) (written-Reads f _ e.key);
          value = written-Reads f₁ _ e.value;
        },
      )

  -- A key that would end outside of the file.
  pub compare-fault :
      (f : MemoryMap) (link : ℕ) (key : Bytes)
      → f.file_size < raw_data L link 0 + length key
      → compare L f link key ≡ fault
  unfolding compare load
  compare-fault f link key h = ground (arith, leb_no (raw_data L link 0 + length key) f.file_size)

  module _ ⦃en : Endian⦄ where
    pub record IsRow (file : MemoryMap) (e : Entry) (succ : ℕ) : Type 0 where
      pub body : IsBody file e
      pub open body use *
      pub next : Reads file (raw_data L e.link L.key_size) (to_le L.width succ)
      pub next_fits : succ < 256 ^ L.width

    pub IsRow-congr :
        {f g : MemoryMap} {e : Entry} {next lo hi : ℕ}
        → Agrees lo hi f g
        → lo ≤ L.address e.link
        → L.address e.link + size e ≤ hi
        → IsRow f e next
        → IsRow g e next
    IsRow-congr {next = n} s l r b = record {
      body = IsBody-congr s l r b.body;
      next =
          Reads_congr _ (to_le L.width n) s (omega arith) (omega (arith, en.length-to_le L.width n))
            b.next;
      next_fits = b.next_fits;
    }

    abbrev pub relinked : MemoryMap → Entry → ℕ → MemoryMap
    relinked f e next = written f (raw_data L e.link L.key_size) (to_le L.width next)

    module _ {f : MemoryMap} {e : Entry} where
      pub compare-row :
          (key : Bytes)
          → length key ≡ L.key_size
          → IsBody f e
          → compare L f e.link key ≡ ok (bytes_eq key e.key)
      unfolding compare
      compare-row key k b = rw (
          load-Reads f (raw_data L e.link 0) e.key (k ∙ sym b.keyed)
            (record { mapped = b.covers.mapped; within = omega (arith, b.covers.within) }) b.key)

      pub next_of-row : {next : ℕ} → IsRow f e next → next_of L f e.link ≡ ok next
      unfolding next_of
      next_of-row {next} b = rw (
        load-Reads f (raw_data L e.link L.key_size) (to_le L.width next)
            (sym (en.length-to_le L.width next))
            (record { mapped = b.covers.mapped; within = omega (arith, b.covers.within) }) b.next,
        ◌>>=◌,
        en.from_le-to_le L.width next b.next_fits,
      )

      pub write_next-IsRow :
          (next : ℕ)
          → next < 256 ^ L.width
          → IsBody f e
          → (write_next L f e.link next ≡ ok (relinked f e next)) × IsRow (relinked f e next) e next
      unfolding write_next
      write_next-IsRow next n b =
          let bs = to_le L.width next in
          let wide : length bs ≡ L.width = en.length-to_le L.width next in
          let at = raw_data L e.link L.key_size in
          let fits : L.address e.link + size e ≤ f.file_size = b.covers.within in
          (
            save-ok f at bs (record { mapped = b.covers.mapped; within = omega arith }),
            record {
              body = record {
                covers = record { mapped = b.covers.mapped; within = fits };
                keyed = b.keyed;
                used = b.used;
                key = written_apart f at bs _ e.key (inl (omega (arith, b.keyed))) b.key;
                value = written_apart f at bs _ e.value (inr (omega arith)) b.value;
              };
              next = written-Reads f at bs;
              next_fits = n;
            },
          )
