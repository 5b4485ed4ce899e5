-- ===== src/Readline/Tests.antt =====
-- Runs of readline() over the scripted socket, and the theorem at one.
use unix_network_programming.Prelude.{
  ℕ, ◌-◌, ◌≡◌, refl, List, [], ◌∷◌, arith, replicate, length-replicate,
}
use unix_network_programming.Prelude.Int.{pos}
use unix_network_programming.Stream.Replay.{Script, packet, signal, replay, replay-IsStream}
use unix_network_programming.Readline.{
  Buffer, Line, line, readline, readline_loop, after_char, my_read, my_read_again, refill,
  next_char,
}
use unix_network_programming.Readline.Refill.{view}
use unix_network_programming.Readline.Lines.{Returns, readline-Returns}

abbrev fresh : Buffer
fresh = record { read_cnt = pos 0; read_ptr = 0; read_buf = replicate 4096 0 }

-- "hi", newline, "y"
abbrev greeting : Script
greeting = record { coming = signal ∷ packet 104 (105 ∷ []) ∷ packet 10 (121 ∷ []) ∷ []; out = [] }

abbrev returned : Line Script → ℕ × List ℕ
returned (line n out b s) = (n, out)
returned _ = (0, [])

first_line : returned (readline replay 3 10 fresh greeting) ≡ (3, 104 ∷ 105 ∷ 10 ∷ 0 ∷ [])
unfolding readline readline_loop after_char my_read my_read_again refill next_char
first_line = refl

-- A line that fills the buffer: two bytes are stored, and the count is three.
cut_line : returned (readline replay 3 3 fresh greeting) ≡ (3, 104 ∷ 105 ∷ 0 ∷ [])
unfolding readline readline_loop after_char my_read my_read_again refill next_char
cut_line = refl

readline-Returns_example :
    Returns replay-IsStream
      (10 - 1)
      (view replay-IsStream fresh greeting)
      (readline replay 3 10 fresh greeting)
readline-Returns_example =
    readline-Returns replay-IsStream 3 10 fresh greeting
      (record { sized = length-replicate {A = ℕ} 4096 0; inside = omega arith }) (omega arith)
