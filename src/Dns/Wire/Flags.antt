-- ===== src/Dns/Wire/Flags.antt =====
-- The fields of the flag word that `Marshal` writes, as `Unmarshal` reads them.
use nett.Prelude.{◌/◌, ◌%◌, ◌^◌, ◌<◌, ◌≡◌, arith}
use nett.Dns.Message.{Message}
use nett.Dns.Record.Rdata.{IsUint16}
use nett.Dns.Wire.{flag_word, has_flag}

module _ (m : Message) (opcode : m.opcode < 16) (rcode : m.rcode < 16) where
  pub flag_word-IsUint16 : IsUint16 (flag_word m)
  unfolding flag_word
  flag_word-IsUint16 = ground arith

  -- each field of the flag word is read back
  pub response_back : has_flag (flag_word m) 15 ≡ m.response
  unfolding flag_word
  response_back = ground arith

  pub opcode_back : flag_word m / 2 ^ 11 % 16 ≡ m.opcode
  unfolding flag_word
  opcode_back = ground arith

  pub authoritative_back : has_flag (flag_word m) 10 ≡ m.authoritative
  unfolding flag_word
  authoritative_back = ground arith

  pub truncated_back : has_flag (flag_word m) 9 ≡ m.truncated
  unfolding flag_word
  truncated_back = ground arith

  pub recursion_desired_back : has_flag (flag_word m) 8 ≡ m.recursion_desired
  unfolding flag_word
  recursion_desired_back = ground arith

  pub recursion_available_back : has_flag (flag_word m) 7 ≡ m.recursion_available
  unfolding flag_word
  recursion_available_back = ground arith

  pub rcode_back : flag_word m % 16 ≡ m.rcode
  unfolding flag_word
  rcode_back = ground arith
