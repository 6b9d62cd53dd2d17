-- ===== src/Worker/Loop/Flow.antt =====
-- Where a stream is, from the time that the server hands it over until the server is answered.
use casket.Base.{
  ℕ, ◌+◌, ◌≤◌, ◌≡◌, ap, Option, none, some, Bytes, Result, ok, err, arith, ◌==◌, if◌then◌else◌,
}
use casket.Base.Map.{
  Map, lookup, insert, remove, IsMap, lookup-insert, lookup-remove, insert-IsMap, remove-IsMap,
}
use casket.Msgs.Wire.{Response, Format}
use casket.Msgs.WorkerBuffer.Respond.{Reply, stream_reg_error, reply, reply_known}
use casket.Worker.Actions.{CasketResponse}
use casket.Worker.Poller.{Poller}
use casket.Worker.PythonThreads.{PythonThreads}
use casket.Worker.Reader.{Reader}
use casket.Worker.Writer.{Writer}
use casket.Worker.{Worker, answer, unless_err, ◌>>=◌}

abbrev pub one : ℕ → ℕ → ℕ
one tk k = if tk == k then 1 else 0

module _ {V : Type 0} where
  -- A token has one entry or none.
  abbrev pub in_map : ℕ → Map V → ℕ
  in_map k m = elim (lookup k m) [ none ↦ 0 | some _ ↦ 1 ]

  pub in_map-le : (k : ℕ) (m : Map V) → in_map k m ≤ 1
  in_map-le k m = ground arith

  pub in_map-insert :
      (tk k : ℕ) (v : V) (m : Map V)
      → in_map tk m ≡ 0
      → in_map k (insert tk v m) ≡ in_map k m + one tk k
  in_map-insert tk k v m h = rw (lookup-insert tk k v m, in_map) (ground (arith, h))

  pub in_map-remove :
      (tk k : ℕ) (v : V) (m : Map V)
      → IsMap m
      → lookup tk m ≡ some v
      → in_map k (remove tk m) + one tk k ≡ in_map k m
  in_map-remove tk k v m h e = rw (lookup-remove tk k m h, in_map) (ground (arith, e))

module _ {Method Url : Type 0} where
  -- In how many of the four maps the stream is.
  abbrev pub places : ℕ → Worker Method Url → ℕ
  places k w =
      in_map k w.server_reading_streams
      + in_map k w.server_pending_streams
      + in_map k w.server_writing_streams
      + in_map k w.server_casket_responses

  -- Whether the server awaits an answer about it.
  abbrev pub awaited : ℕ → Worker Method Url → ℕ
  awaited k w = in_map k w.msg_buf.server_fds

  -- No token has two entries.
  pub record AreMaps (w : Worker Method Url) : Type 0 where
    pub reading : IsMap w.server_reading_streams
    pub pending : IsMap w.server_pending_streams
    pub writing : IsMap w.server_writing_streams
    pub casket : IsMap w.server_casket_responses
    pub fds : IsMap w.msg_buf.server_fds

  -- The stream of `tk`, which was in no map, is in one now, or the server has been answered.
  pub record Settles (tk : ℕ) (w w' : Worker Method Url) : Type 0 where
    pub maps : AreMaps w'
    pub pending_kept :
        (k : ℕ) → in_map k w.server_pending_streams ≤ in_map k w'.server_pending_streams
    pub conserved : (k : ℕ) → places k w' + awaited k w ≡ places k w + one tk k + awaited k w'

  module _ (tk : ℕ) (w : Worker Method Url) (p : Poller) (m : AreMaps w) (h : places tk w ≡ 0) where
    pub put_reading :
        (v : ℕ × Reader Method Url)
        → Settles tk w
            (record w { poll = p; server_reading_streams = insert tk v w.server_reading_streams })
    put_reading v = record {
      maps = record {
        reading = insert-IsMap tk v w.server_reading_streams m.reading;
        pending = m.pending;
        writing = m.writing;
        casket = m.casket;
        fds = m.fds;
      };
      pending_kept = λ k. omega arith;
      conserved =
          λ k. omega (arith, in_map-insert tk k v w.server_reading_streams (omega (arith, h)));
    }

    pub put_writing :
        (v : ℕ × Writer Method Url)
        → Settles tk w
            (record w { poll = p; server_writing_streams = insert tk v w.server_writing_streams })
    put_writing v = record {
      maps = record {
        reading = m.reading;
        pending = m.pending;
        writing = insert-IsMap tk v w.server_writing_streams m.writing;
        casket = m.casket;
        fds = m.fds;
      };
      pending_kept = λ k. omega arith;
      conserved =
          λ k. omega (arith, in_map-insert tk k v w.server_writing_streams (omega (arith, h)));
    }

    pub put_casket :
        (v : ℕ × CasketResponse)
        → Settles tk w
            (record w { poll = p; server_casket_responses = insert tk v w.server_casket_responses })
    put_casket v = record {
      maps = record {
        reading = m.reading;
        pending = m.pending;
        writing = m.writing;
        casket = insert-IsMap tk v w.server_casket_responses m.casket;
        fds = m.fds;
      };
      pending_kept = λ k. omega arith;
      conserved =
          λ k. omega (arith, in_map-insert tk k v w.server_casket_responses (omega (arith, h)));
    }

    pub put_pending :
        (v : ℕ) (threads : PythonThreads Method Url)
        → Settles tk w (record w {
          python_threads = threads;
          server_pending_streams = insert tk v w.server_pending_streams;
        })
    put_pending v threads = record {
      maps = record {
        reading = m.reading;
        pending = insert-IsMap tk v w.server_pending_streams m.pending;
        writing = m.writing;
        casket = m.casket;
        fds = m.fds;
      };
      pending_kept =
          λ k. omega (arith, in_map-insert tk k v w.server_pending_streams (omega (arith, h)));
      conserved =
          λ k. omega (arith, in_map-insert tk k v w.server_pending_streams (omega (arith, h)));
    }

module _ {Method Url : Type 0} (f : Format Response) where
  abbrev pub Ends : ℕ → Worker Method Url → Option (Worker Method Url) → Type 0
  Ends tk w o = (w' : Worker Method Url) × (o ≡ some w') × Settles tk w w'

  pub reply-Ends :
      (tk fd : ℕ) (w : Worker Method Url) (p : Poller) (r : Reply)
      → AreMaps w
      → lookup tk w.msg_buf.server_fds ≡ some fd
      → Ends tk w (answer f (record w { poll = p }) (λ b. reply f b tk r))
  reply-Ends tk fd w p r m e = (
    _,
    ap (λ o. o >>= λ b. some (record w { poll = p; msg_buf = b }))
        (reply_known f w.msg_buf tk fd r e),
    record {
      maps = record {
        reading = m.reading;
        pending = m.pending;
        writing = m.writing;
        casket = m.casket;
        fds = remove-IsMap tk w.msg_buf.server_fds m.fds;
      };
      pending_kept = λ k. omega arith;
      conserved = λ k. omega (arith, in_map-remove tk k fd w.msg_buf.server_fds m.fds e);
    },
  )

  pub unless_err-Ends :
      (tk fd : ℕ) (w : Worker Method Url) (p : Poller) (r : Result Bytes (Unit {0}))
      (rest : Option (Worker Method Url))
      → AreMaps w
      → lookup tk w.msg_buf.server_fds ≡ some fd
      → Ends tk w rest
      → Ends tk w (unless_err f r tk (record w { poll = p }) rest)
  unfolding reply
  unless_err-Ends tk fd w p (ok _) rest m e ends = ends
  unless_err-Ends tk fd w p (err x) rest m e ends = reply-Ends tk fd w p (stream_reg_error x) m e
