-- ===== src/Base/Text.antt =====
-- Error texts. A message is the `fmt.Sprintf` call that renders it: its format and arguments.
use Prim.Native.Nat.{ℕ}
use Prim.Native.String.{String}

-- A `uuid.UUID` is the number that its 16 bytes spell, and `uuid.Nil` is 0.
abbrev pub Uuid : Type 0
Uuid = ℕ

abbrev pub nil_uuid : Uuid
nil_uuid = 0

-- A `time.Time` is its distance in nanoseconds from the zero time.
abbrev pub Time : Type 0
Time = ℕ

mutual
  pub data Arg : Type 0 where
    uuid_arg : Uuid → Arg
    string_arg : String → Arg
    int_arg : ℕ → Arg
    message_arg : Message → Arg

  pub data Message : Type 0 where
    format : String → Args → Message

  pub data Args : Type 0 where
    no_args : Args
    more_args : Arg → Args → Args

abbrev pub text : String → Message
text s = format s no_args

abbrev pub sprintf : String → Arg → Message
sprintf s a = format s (more_args a no_args)

abbrev pub sprintf₂ : String → Arg → Arg → Message
sprintf₂ s a b = format s (more_args a (more_args b no_args))

abbrev pub sprintf₃ : String → Arg → Arg → Arg → Message
sprintf₃ s a b c = format s (more_args a (more_args b (more_args c no_args)))
