-- ===== src/Cpu/State.antt =====
-- The state of the machine between instructions, and the updates that keep it.
use os_project2_nach_os.Base.{
  ℕ, zero, suc, ◌<◌, ◌≡◌, ◌≢◌, ◌∙◌, List, [], ◌∷◌, Option, length, length-set, get_or,
  get_elem?-eq-get_or, set, ok, ◌>>=◌, ◌==◌, ◌&&◌, ltb, if◌then◌else◌, arith,
}
use os_project2_nach_os.Base.Slices.{byte_at}
use os_project2_nach_os.Memory.{TranslationEntry, Machine, memory_size, store_in, store_entry}
use os_project2_nach_os.Memory.Access.{load_reg, load_value_reg, set_reg, delayed_load}
use os_project2_nach_os.Memory.Translated.{HasTable, has_tlb, has_page_table}
use os_project2_nach_os.Mult.{word}
use os_project2_nach_os.Cpu.{reg, with_reg, num_total_regs}

-- There are 40 registers of 32 bits, a pending load names a general register, the memory has its
-- size and consists of bytes, and the one table has the entries that may be indexed.
pub record IsMachine (m : Machine) : Type 0 where
  pub register_count : length m.registers ≡ num_total_regs
  pub words : (n : ℕ) → reg m n < word
  pub load_target : reg m load_reg < 32
  pub memory_full : length m.main_memory ≡ memory_size
  pub bytes : (k : ℕ) → byte_at m.main_memory k < 256
  pub table : HasTable m.tlb m.page_table m.page_table_size

-- Between instructions register 0 holds 0.
pub record IsReady (m : Machine) : Type 0 where
  pub machine : IsMachine m
  pub zero_reg : reg m 0 ≡ 0

pub get_or-set :
    (xs : List ℕ) (i j v d : ℕ)
    → get_or (set xs i v) j d ≡ (if (i == j) && ltb i (length xs) then v else get_or xs j d)
get_or-set [] i j v d = ground arith
get_or-set (x ∷ xs) zero zero v d = ground arith
get_or-set (x ∷ xs) zero (suc j) v d = ground arith
get_or-set (x ∷ xs) (suc i) zero v d = ground arith
get_or-set (x ∷ xs) (suc i) (suc j) v d = ground (arith, get_or-set xs i j v d)

pub reg-with_reg :
    (m : Machine) (i j v : ℕ)
    → reg (with_reg m i v) j ≡ (if (i == j) && ltb i (length m.registers) then v else reg m j)
reg-with_reg m i j v = get_or-set m.registers i j v 0

pub with_reg-IsMachine :
    (m : Machine) (n v : ℕ) → n ≢ load_reg → v < word → IsMachine m → IsMachine (with_reg m n v)
with_reg-IsMachine m n v other small g = record {
  register_count = length-set m.registers n v ∙ g.register_count;
  words = λ k. ground (arith, reg-with_reg m n k v, g.words k);
  load_target = ground (arith, reg-with_reg m n load_reg v, g.load_target);
  memory_full = g.memory_full;
  bytes = g.bytes;
  table = g.table;
}

pub with_load-IsMachine :
    (m : Machine) (v : ℕ) → v < 32 → IsMachine m → IsMachine (with_reg m load_reg v)
with_load-IsMachine m v small g = record {
  register_count = length-set m.registers load_reg v ∙ g.register_count;
  words = λ k. ground (arith, reg-with_reg m load_reg k v, g.words k);
  load_target = ground (arith, reg-with_reg m load_reg load_reg v, g.register_count);
  memory_full = g.memory_full;
  bytes = g.bytes;
  table = g.table;
}

touched_table :
    {tlb page_table : Option (List TranslationEntry)} {size : ℕ} (i : ℕ) (e : TranslationEntry)
    → HasTable tlb page_table size
    → HasTable (store_in tlb i e) (store_in page_table i e) size
touched_table i e (has_tlb t size h) = has_tlb (set t i e) size (omega (arith, length-set t i e))
touched_table i e (has_page_table p size h) =
    has_page_table (set p i e) size (omega (arith, length-set p i e))

pub store_entry-IsMachine :
    (m : Machine) (i : ℕ) (e : TranslationEntry) → IsMachine m → IsMachine (store_entry m i e)
store_entry-IsMachine m i e g = record {
  register_count = g.register_count;
  words = g.words;
  load_target = g.load_target;
  memory_full = g.memory_full;
  bytes = g.bytes;
  table = touched_table i e g.table;
}

-- What DelayedLoad leaves.
abbrev pub after_load : Machine → ℕ → ℕ → Machine
after_load m r v =
    with_reg
      (with_reg (with_reg (with_reg m (reg m load_reg) (reg m load_value_reg)) load_reg r)
        load_value_reg v)
      0 0

pub set_reg-ok : (rs : List ℕ) (n v : ℕ) → n < length rs → set_reg rs n v ≡ ok (set rs n v)
set_reg-ok rs n v h = ground arith

-- Four writes in a row, each inside the array.
four_writes :
    (rs : List ℕ) (a x b y c z d w : ℕ) (m : Machine)
    → a < length rs
    → b < length rs
    → c < length rs
    → d < length rs
    → (set_reg rs a x >>= λ r1. set_reg r1 b y >>= λ r2.
        set_reg r2 c z >>= λ r3. set_reg r3 d w >>= λ r4. ok (record m { registers = r4 }))
      ≡ ok (record m { registers = set (set (set (set rs a x) b y) c z) d w })
four_writes rs a x b y c z d w m ha hb hc hd = rw (
  set_reg-ok rs a x ha,
  set_reg-ok (set rs a x) b y (omega (arith, length-set rs a x)),
  set_reg-ok (set (set rs a x) b y) c z
      (omega (arith, length-set rs a x, length-set (set rs a x) b y)),
  set_reg-ok (set (set (set rs a x) b y) c z) d w (
      omega (
        arith,
        length-set rs a x,
        length-set (set rs a x) b y,
        length-set (set (set rs a x) b y) c z,
      )),
)

pub delayed_load-ok :
    (m : Machine) (r v : ℕ) → IsMachine m → delayed_load m r v ≡ ok (after_load m r v)
unfolding delayed_load
delayed_load-ok m r v g =
    rw
      (
        get_elem?-eq-get_or m.registers load_reg 0 (omega (arith, g.register_count)),
        get_elem?-eq-get_or m.registers load_value_reg 0 (omega (arith, g.register_count)),
      )
      (four_writes m.registers (reg m load_reg) (reg m load_value_reg) load_reg r load_value_reg v 0
        0 m (omega (arith, g.register_count, g.load_target)) (omega (arith, g.register_count))
        (omega (arith, g.register_count)) (omega (arith, g.register_count)))

zeroed : (m : Machine) → IsMachine m → reg (with_reg m 0 0) 0 ≡ 0
zeroed m g = ground (arith, reg-with_reg m 0 0 0, g.register_count)

pub after_load-IsReady :
    (m : Machine) (r v : ℕ) → r < 32 → v < word → IsMachine m → IsReady (after_load m r v)
after_load-IsReady m r v hr hv g =
    let given =
      with_reg-IsMachine m (reg m load_reg) (reg m load_value_reg)
        (λ q. absurd (omega (arith, g.load_target, q))) (g.words load_value_reg) g in
    let target =
      with_load-IsMachine (with_reg m (reg m load_reg) (reg m load_value_reg)) r hr given in
    let value = with_reg-IsMachine _ load_value_reg v (λ q. absurd (omega (arith, q))) hv target in
    record {
      machine = with_reg-IsMachine _ 0 0 (λ q. absurd (omega (arith, q))) (omega arith) value;
      zero_reg = zeroed _ value;
    }
