-- ===== src/CodeGen/Tests.antt =====
-- Code generated into an empty buffer.
use littlesmalltalk.Prelude.{ℕ, ◌<◌, ◌≡◌, [], ◌∷◌, length-replicate, replicate, arith}
use littlesmalltalk.Prelude.Result.{ok}
use littlesmalltalk.CodeGen.{Buffer, gen_instruction}
use littlesmalltalk.CodeGen.Buffers.{IsBuffer}
use littlesmalltalk.CodeGen.Decoding.{Emitted, gen_instruction-decode}

-- A buffer of `limit` places of which `top` are filled with zeros.
abbrev zeros : ℕ → ℕ → Buffer ℕ
zeros limit top = record { places = replicate limit 0; top = top }

zeros-IsBuffer : (limit top : ℕ) → top < limit → IsBuffer limit (zeros limit top)
zeros-IsBuffer limit top h = record { size = length-replicate limit 0; room = h }

-- SendUnary with an operand that needs the extended form.
gen_instruction-decode_example :
    (s' : Buffer ℕ) × (gen_instruction 2 10 200 (zeros 2048 3) ≡ ok s')
    × Emitted 10 200 (zeros 2048 3) s' (7 ∷ [])
gen_instruction-decode_example =
    gen_instruction-decode 0 10 200 (zeros 2048 3) (7 ∷ []) (zeros-IsBuffer 2048 3 (omega arith))
      (omega arith) (omega arith) (omega arith)
