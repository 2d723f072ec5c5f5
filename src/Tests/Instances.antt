-- ===== src/Tests/Instances.antt =====
-- The instances of the interfaces that the tests run with: messages and states are numbers.
use waltz.Base.{ℕ, Result}
use waltz.Extern.Flume.{Flume, list_flume}
use waltz.Extern.Oneshot.{Oneshot, plain_oneshot, RecvError}
use waltz.Extern.Timeout.{Timeout, plain_timeout}
use waltz.Extern.Watch.{Watch, plain_watch}
use waltz.Actor.{Incoming}

instance abbrev pub number_flume : Flume ℕ
number_flume = list_flume ℕ

instance abbrev pub incoming_flume : Flume (Incoming ℕ)
incoming_flume = list_flume (Incoming ℕ)

instance abbrev pub unit_oneshot : Oneshot (Unit {0})
unit_oneshot = plain_oneshot (Unit {0})

instance abbrev pub number_oneshot : Oneshot ℕ
number_oneshot = plain_oneshot ℕ

instance abbrev pub reply_timeout : Timeout (Result ℕ RecvError)
reply_timeout = plain_timeout (Result ℕ RecvError)

instance abbrev pub the_watch : Watch
the_watch = plain_watch
