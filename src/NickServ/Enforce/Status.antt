-- ===== src/NickServ/Enforce/Status.antt =====
-- A change of a status, in the table and in the cache.
use oftc_blitzed.Base.{ℕ, ◌≡◌, refl, ap, ◌∙◌, true, false, Option, none, some, arith, ◌==◌}
use oftc_blitzed.Cache.{Bits}
use oftc_blitzed.NickServ.Enforce.{
  Row, Net, map_row, set_status, row_status, seen, map_bits, has_bit, get_nick_status,
  change_status,
}

pub equal_self : (id : ℕ) → (id == id) ≡ true
equal_self id = ground arith

pub change_status-table :
    (f : Bits → Bits) (id : ℕ) (st : Net)
    → (change_status f id st).table id ≡ map_row (set_status f) (st.table id)
unfolding change_status
change_status-table f id st = rw (equal_self id) refl

pub change_status-cached :
    (f : Bits → Bits) (id : ℕ) (st : Net)
    → (change_status f id st).cached id
      ≡ map_bits f (seen (st.cached id) (map_row (set_status f) (st.table id)))
unfolding change_status
change_status-cached f id st = rw (equal_self id) refl

-- Neither the table nor the cache has a bit for a nick.
pub record IsClear (b id : ℕ) (st : Net) : Type 0 where
  pub in_table : has_bit b (row_status (st.table id)) ≡ false
  pub in_cache : has_bit b (st.cached id) ≡ false

pub has_bit-map_bits :
    (b : ℕ) (f : Bits → Bits) (o : Option Bits)
    → ((s : Bits) → f s b ≡ false)
    → has_bit b (map_bits f o) ≡ false
has_bit-map_bits b f none h = refl
has_bit-map_bits b f (some s) h = h s

row_status-map_row :
    (f : Bits → Bits) (o : Option Row)
    → row_status (map_row (set_status f) o) ≡ map_bits f (row_status o)
row_status-map_row f none = refl
row_status-map_row f (some r) = refl

-- A change that clears the bit, and one that leaves it alone.
pub change_status-clears :
    (b id : ℕ) (f : Bits → Bits) (st : Net)
    → ((s : Bits) → f s b ≡ false)
    → IsClear b id (change_status f id st)
change_status-clears b id f st h = record {
  in_table =
      ap (λ o. has_bit b (row_status o)) (change_status-table f id st)
      ∙ (ap (λ o. has_bit b o) (row_status-map_row f (st.table id))
          ∙ has_bit-map_bits b f (row_status (st.table id)) h);
  in_cache =
      ap (λ o. has_bit b o) (change_status-cached f id st)
      ∙ has_bit-map_bits b f (seen (st.cached id) (map_row (set_status f) (st.table id))) h;
}

has_bit-keeps :
    (b : ℕ) (f : Bits → Bits) (o : Option Bits)
    → ((s : Bits) → f s b ≡ s b)
    → has_bit b (map_bits f o) ≡ has_bit b o
has_bit-keeps b f none h = refl
has_bit-keeps b f (some s) h = h s

seen-clear :
    (b : ℕ) (o : Option Bits) (r : Option Row)
    → has_bit b o ≡ false
    → has_bit b (row_status r) ≡ false
    → has_bit b (seen o r) ≡ false
seen-clear b none r h k = k
seen-clear b (some s) r h k = h

pub change_status-keeps :
    (b id : ℕ) (f : Bits → Bits) (st : Net)
    → ((s : Bits) → f s b ≡ s b)
    → IsClear b id st
    → IsClear b id (change_status f id st)
change_status-keeps b id f st h c =
    let table : has_bit b (row_status (map_row (set_status f) (st.table id))) ≡ false =
      ap (λ o. has_bit b o) (row_status-map_row f (st.table id))
      ∙ (has_bit-keeps b f (row_status (st.table id)) h ∙ c.in_table) in
    record {
      in_table = ap (λ o. has_bit b (row_status o)) (change_status-table f id st) ∙ table;
      in_cache =
          ap (λ o. has_bit b o) (change_status-cached f id st)
          ∙ (has_bit-keeps b f (seen (st.cached id) (map_row (set_status f) (st.table id))) h
              ∙ seen-clear b (st.cached id) (map_row (set_status f) (st.table id)) c.in_cache
                  table);
    }

pub IsClear-get_nick_status :
    (b id : ℕ) (st : Net) → IsClear b id st → get_nick_status b id st ≡ false
IsClear-get_nick_status b id st c = seen-clear b (st.cached id) (st.table id) c.in_cache c.in_table
