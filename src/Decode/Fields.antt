-- ===== src/Decode/Fields.antt =====
-- Every instruction word is decoded, into fields that give the word back.
use os_project2_nach_os.Base.{
  ℕ, zero, suc, ◌+◌, ◌*◌, ◌/◌, ◌%◌, ◌<◌, ◌≡◌, refl, ◌∙◌, ap, Bool, true, false, ◌&&◌, List, [], ◌∷◌,
  some, ok, or_wild, get_elem?, get_elem?-some, arith,
}
use os_project2_nach_os.Decode.{
  Opcode, special, bcond, Format, ifmt, rfmt, jfmt, OpInfo, op_table, special_table, Instruction,
  sign_extend, extra_of, bcond_bits, branch_code, op_code_of, decode,
}

-- A code that stands for an operation.
abbrev pub is_operation : Opcode → Bool
is_operation code = elim code [ special ↦ false | bcond ↦ false | _ ↦ true ]

all_operations : List Opcode → Bool
all_operations [] = true
all_operations (c ∷ cs) = is_operation c && all_operations cs

all_operations-get_elem? :
    (cs : List Opcode) (i : ℕ) {c : Opcode}
    → all_operations cs ≡ true
    → get_elem? cs i ≡ some c
    → is_operation c ≡ true
unfolding all_operations
all_operations-get_elem? [] i all h = cc
all_operations-get_elem? (c ∷ cs) zero all h = ground arith
all_operations-get_elem? (c ∷ cs) (suc i) all h = all_operations-get_elem? cs i (ground arith) h

special_table_operations : all_operations special_table ≡ true
unfolding all_operations
special_table_operations = refl

branch_code-is_operation : (i : ℕ) → is_operation (branch_code i) ≡ true
branch_code-is_operation i = ground arith

op_code_of_total :
    (code : Opcode) (value : ℕ)
    → (c : Opcode) × (op_code_of code value ≡ ok c) × (is_operation c ≡ true)
op_code_of_total special value =
    let (c, there) = get_elem?-some special_table (value % 64) (omega arith) in
    (
      c,
      ap or_wild there,
      all_operations-get_elem? special_table (value % 64) special_table_operations there,
    )
op_code_of_total bcond value =
    (branch_code (bcond_bits value), refl, branch_code-is_operation (bcond_bits value))
op_code_of_total plain value = (plain, refl, refl)

-- The word that the fields stand for, with the bits 31 to 26 and, for a format of three registers,
-- the bits 5 to 0, which Decode puts into no field.
abbrev pub encode : Format → ℕ → ℕ → Instruction → ℕ
encode format op funct i = elim format [
  | ifmt ↦ op * 67108864 + i.rs * 2097152 + i.rt * 65536 + i.extra % 65536
  | rfmt ↦ op * 67108864 + i.rs * 2097152 + i.rt * 65536 + i.rd * 2048 + i.extra * 64 + funct
  | jfmt ↦ op * 67108864 + i.extra
]

fields : ℕ → Format → Opcode → Instruction
fields v format code = record {
  value = v;
  op_code = code;
  rs = v / 2097152 % 32;
  rt = v / 65536 % 32;
  rd = v / 2048 % 32;
  extra = extra_of format v;
}

low_half : (v : ℕ) → sign_extend (v % 65536) % 65536 ≡ v % 65536
low_half v = ground arith

encode-fields :
    (v : ℕ) (format : Format) (code : Opcode)
    → encode format (v / 67108864) (v % 64) (fields v format code) ≡ v
unfolding fields
encode-fields v ifmt code = omega (arith, low_half v)
encode-fields v rfmt code = omega arith
encode-fields v jfmt code = omega arith

table_entry :
    (v : ℕ) → v < 4294967296 → (e : OpInfo) × (get_elem? op_table (v / 67108864 % 64) ≡ some e)
table_entry v h = get_elem?-some op_table (v / 67108864 % 64) (omega arith)

decode-eq :
    (v : ℕ) (e : OpInfo) (c : Opcode)
    → get_elem? op_table (v / 67108864 % 64) ≡ some e
    → op_code_of e.op_code v ≡ ok c
    → decode v ≡ ok (fields v e.format c)
unfolding decode fields
decode-eq v e c there coded = rw (there, coded)

extra_of-lt : (format : Format) (v : ℕ) → v < 4294967296 → extra_of format v < 4294967296
extra_of-lt ifmt v h = ground arith
extra_of-lt rfmt v h = omega arith
extra_of-lt jfmt v h = omega arith

-- The ranges of the fields.
pub decode_ranges :
    (v : ℕ)
    → v < 4294967296
    → (i : Instruction) × (decode v ≡ ok i)
      × ((i.rs < 32) × (i.rt < 32) × (i.rd < 32) × (i.extra < 4294967296))
unfolding fields
decode_ranges v h =
    let (e, there) = table_entry v h in
    let (c, coded, operation) = op_code_of_total e.op_code v in
    (
      fields v e.format c,
      decode-eq v e c there coded,
      (omega arith, omega arith, omega arith, extra_of-lt e.format v h),
    )

-- Decode reads inside its tables for every 32-bit word, and its result is an operation, never
-- SPECIAL or BCOND. The register numbers are below 32, and the fields give the word back: by the
-- format that the table has for the bits 31 to 26, the word is these bits and the fields in their
-- places, with the bits 5 to 0 for a format of three registers.
pub decode-encode :
    (v : ℕ)
    → v < 4294967296
    → (i : Instruction) × (e : OpInfo) × (decode v ≡ ok i)
      × (get_elem? op_table (v / 67108864) ≡ some e)
      × (is_operation i.op_code ≡ true)
      × ((i.rs < 32) × (i.rt < 32) × (i.rd < 32))
      × (encode e.format (v / 67108864) (v % 64) i ≡ v)
unfolding fields
decode-encode v h =
    let (e, there) = table_entry v h in
    let (c, coded, operation) = op_code_of_total e.op_code v in
    (
      fields v e.format c,
      e,
      decode-eq v e c there coded,
      ap (get_elem? op_table) {x = v / 67108864} {y = v / 67108864 % 64} (omega arith) ∙ there,
      operation,
      (omega arith, omega arith, omega arith),
      encode-fields v e.format c,
    )
