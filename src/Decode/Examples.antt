-- ===== src/Decode/Examples.antt =====
-- Decode at concrete instruction words.
use os_project2_nach_os.Base.{◌/◌, ◌%◌, ◌<◌, ◌≡◌, refl, true, some, ok, get_elem?, arith}
use os_project2_nach_os.Decode.{op_addi, op_addu, OpInfo, op_table, Instruction, decode}
use os_project2_nach_os.Decode.Fields.{encode, is_operation, decode-encode}

-- addi r8, r9, -1
addi_word :
    decode 556335103
    ≡ ok (record {
      value = 556335103;
      op_code = op_addi;
      rs = 9;
      rt = 8;
      rd = 31;
      extra = 4294967295;
    })
unfolding decode
addi_word = refl

-- addu r1, r2, r3
addu_word :
    decode 4392993
    ≡ ok (record { value = 4392993; op_code = op_addu; rs = 2; rt = 3; rd = 1; extra = 0 })
unfolding decode
addu_word = refl

decode-encode_example :
    (i : Instruction) × (e : OpInfo) × (decode 556335103 ≡ ok i)
    × (get_elem? op_table (556335103 / 67108864) ≡ some e)
    × (is_operation i.op_code ≡ true)
    × ((i.rs < 32) × (i.rt < 32) × (i.rd < 32))
    × (encode e.format (556335103 / 67108864) (556335103 % 64) i ≡ 556335103)
decode-encode_example = decode-encode 556335103 (omega arith)
