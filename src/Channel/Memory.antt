-- ===== src/Channel/Memory.antt =====
-- A stream in memory: what is still to come, and what has been sent. It meets what is documented of
-- Boost.Asio's `read` and `write`.
use mysql_asio.Base.{
  ℕ, refl, Bool, true, List, [], ◌++◌, leb, le→leb, lt→leb, if◌then◌else◌, length, take, drop,
}
use mysql_asio.Base.Error.{ErrorCode, system, success}
use mysql_asio.Channel.{Stream}
use mysql_asio.Channel.Reading.{Delivers}
use mysql_asio.Channel.Writing.{Accepts}

pub record Memory : Type 0 where
  pub incoming : List ℕ
  pub outgoing : List ℕ

-- The code of an end of file; any number but 0 would do.
abbrev pub eof : ErrorCode
eof = system 2

abbrev pub memory_read : Bool → ℕ → Memory → (ErrorCode × List ℕ) × Memory
memory_read tls n s =
    if leb n (length s.incoming)
    then ((success, take n s.incoming), record s { incoming = drop n s.incoming })
    else ((eof, s.incoming), record s { incoming = [] })

abbrev pub memory_io : Stream Memory
memory_io = record {
  read = memory_read;
  write = λ tls bytes s. (success, record s { outgoing = s.outgoing ++ bytes });
  ssl_handshake = λ s. (success, s);
  shutdown = λ s. (success, s);
  close = λ s. (success, s);
  is_open = λ s. true;
}

abbrev pub incoming_of : Memory → List ℕ
incoming_of s = s.incoming

abbrev pub outgoing_of : Memory → List ℕ
outgoing_of s = s.outgoing

pub memory_delivers : Delivers memory_io incoming_of
memory_delivers = record {
  succeeds = λ tls n s h. rw (le→leb n (length s.incoming) h);
  consumes = λ tls n s h. rw (le→leb n (length s.incoming) h);
  starves = λ tls n s h. rw (lt→leb n (length s.incoming) h);
}

pub memory_accepts : Accepts memory_io outgoing_of
memory_accepts = record { succeeds = λ tls bytes s. refl; appends = λ tls bytes s. refl }
