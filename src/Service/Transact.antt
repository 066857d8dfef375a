-- ===== src/Service/Transact.antt =====
-- apexd/apexservice.cpp: `onTransact`, which reads a shell command out of a parcel.
use android_system_apex.Common.{
  ℕ, zero, suc, length, ◌==◌, ◌≡◌, refl, Bool, false, Option, none, some, List, [], ◌∷◌, Text, ℤ,
  pos, negsuc, Action, arith, if◌then◌else◌,
}
use android_system_apex.Common.Effects.{◌>>=◌, pure}
use android_system_apex.Os.{Os}
use android_system_apex.Config.{Config}
use android_system_apex.Daemon.{Daemon}
use android_system_apex.Service.{Binder}
use android_system_apex.Service.Help.{Printed}
use android_system_apex.Service.SessionId.{int_eq}
use android_system_apex.Service.Shell.{ShellStatus, shell_command}

-- What libbinder provides: a parcel's reads, each of which leaves the parcel after what it read. A
-- read of a binder gives a status, 0 for OK, and whether the binder is not null.
pub record Parcel (P : Type 0) : Type 0 where
  pub read_file_descriptor : P → ℤ × P
  pub read_int32 : P → ℤ × P
  pub data_avail : P → ℕ
  pub read_string16 : P → Text × P
  pub read_nullable_strong_binder : P → (ℤ × Bool) × P

-- What a transaction leads to: an error of a read, or a command that ran, whose status is sent
-- to the receiver if there is one, and that is answered by OK.
pub data Transacted : Type 0 where
  unreadable : ℤ → Transacted
  ran : ShellStatus × Printed → Option ShellStatus → Transacted

abbrev rounds : ℤ → ℕ
rounds (pos argc) = argc
rounds (negsuc n) = 0

module _ {P : Type 0} (parcel : Parcel P) where
  -- The loop over the arguments.
  read_args : ℕ → P → List Text × P
  read_args zero p = ([], p)
  read_args (suc n) p =
      let (arg, p') = parcel.read_string16 p in
      let (args, p'') = read_args n p' in
      if parcel.data_avail p == 0 then ([], p) else (arg ∷ args, p'')

  module _ {W : Type 0} (os : Os W) (config : Config) (binder : Binder) where
    -- The case of SHELL_COMMAND_TRANSACTION in `onTransact`.
    unfoldable pub shell_transaction : P → Action (Daemon W) Transacted
    unfolding read_args
    shell_transaction p =
        let (input, p1) = parcel.read_file_descriptor p in
        let (output, p2) = parcel.read_file_descriptor p1 in
        let (errors, p3) = parcel.read_file_descriptor p2 in
        let (argc, p4) = parcel.read_int32 p3 in
        let (args, p5) = read_args (rounds argc) p4 in
        let ((callback_status, _), p6) = parcel.read_nullable_strong_binder p5 in
        let ((status, has_receiver), p7) = parcel.read_nullable_strong_binder p6 in
        if int_eq callback_status (pos 0)
        then if int_eq status (pos 0)
          then (do
            reply ← shell_command os config binder input output errors args
            pure (ran reply (if has_receiver then some reply.0 else none)))
          else pure (unreadable status)
        else pure (unreadable callback_status)

  -- The strings that stand in a parcel, up to a place in it.
  pub data Holds : P → List Text → P → Type 0 where
    over : {p : P} → Holds p [] p
    next :
        {p p' q : P} {arg : Text} {args : List Text}
        → (parcel.data_avail p == 0) ≡ false
        → parcel.read_string16 p ≡ (arg, p')
        → Holds p' args q
        → Holds p (arg ∷ args) q

  read_args-Holds :
      {p q : P} {args : List Text} → Holds p args q → read_args (length args) p ≡ (args, q)
  unfolding read_args
  read_args-Holds over = refl
  read_args-Holds (next {p} {p'} {q} {arg} {args} more read h) = ground (arith, read_args-Holds h)

  -- A parcel as the shell writes it: three descriptors, the number of the arguments, the arguments
  -- and two binders.
  pub record Written (p : P) (input output errors : ℤ) (args : List Text) (receiver : Bool)
      : Type 0 where
    pub p1 : P
    pub p2 : P
    pub p3 : P
    pub p4 : P
    pub p5 : P
    pub p6 : P
    pub p7 : P
    pub callback : Bool
    pub reads_input : parcel.read_file_descriptor p ≡ (input, p1)
    pub reads_output : parcel.read_file_descriptor p1 ≡ (output, p2)
    pub reads_errors : parcel.read_file_descriptor p2 ≡ (errors, p3)
    pub reads_count : parcel.read_int32 p3 ≡ (pos (length args), p4)
    pub holds : Holds p4 args p5
    pub reads_callback : parcel.read_nullable_strong_binder p5 ≡ ((pos 0, callback), p6)
    pub reads_receiver : parcel.read_nullable_strong_binder p6 ≡ ((pos 0, receiver), p7)

  abbrev pub sent : Bool → ShellStatus × Printed → Transacted
  sent receiver reply = ran reply (if receiver then some reply.0 else none)

  module _ {W : Type 0} (os : Os W) (config : Config) (binder : Binder) where
    -- A shell command that was written to a parcel runs with the descriptors and the arguments that
    -- were written, on the state as it is, and its status is sent to the receiver if there is one.
    pub shell_transaction-Written :
        (p : P) (input output errors : ℤ) (args : List Text) (receiver : Bool)
        → Written p input output errors args receiver
        → shell_transaction os config binder p ≡ (do
          reply ← shell_command os config binder input output errors args
          pure (sent receiver reply))
    unfolding shell_transaction
    shell_transaction-Written p input output errors args receiver w =
        let e = read_args-Holds w.holds in
        rw
          (
            w.reads_input, w.reads_output, w.reads_errors, w.reads_count, e, w.reads_callback,
            w.reads_receiver, shell_transaction,
          )
          refl
