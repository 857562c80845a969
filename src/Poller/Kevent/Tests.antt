-- ===== src/Poller/Kevent/Tests.antt =====
-- A queue that stops at the first change that fails, and a poller with changes for a channel that is
-- gone.
use liby_cpp.Base.{
  ◌≡◌, refl, Bool, true, false, ◌&&◌, ◌||◌, List, [], ◌∷◌, ◌++◌, none, some, arith, ◌==◌,
  if◌then◌else◌, pos, ok, ◌>>=◌,
}
use liby_cpp.Poller.{Channel, Poller, no_channel}
use liby_cpp.Poller.Kevent.{
  update_chanel, Change, Filter, Kqueue, Own, change_of, evfilt_read, evfilt_write, ev_add_enable,
  ev_delete, update_kevents,
}
use liby_cpp.Poller.Kevent.Batches.{Laws, update_kevents-registered}
use liby_cpp.Poller.Kevent.Lost.{update_chanel-lost}

abbrev same_filter : Filter → Filter → Bool
same_filter evfilt_read evfilt_read = true
same_filter evfilt_read evfilt_write = false
same_filter evfilt_write evfilt_read = false
same_filter evfilt_write evfilt_write = true

abbrev added : Change → List Change → Bool
added c [] = false
added c (d ∷ ds) = (c.ident == d.ident && same_filter c.filter d.filter) || added c ds

abbrev without : Change → List Change → List Change
without c [] = []
without c (d ∷ ds) =
    let rest = without c ds in
    if c.ident == d.ident && same_filter c.filter d.filter then rest else d ∷ rest

-- Only a filter that was added can be deleted.
abbrev takes : List Change → Change → Bool
takes k c = elim c.flags [ ev_add_enable ↦ true | ev_delete ↦ added c k ]

abbrev applied : Change → List Change → List Change
applied c k = elim c.flags [ ev_add_enable ↦ without c k ++ c ∷ [] | ev_delete ↦ without c k ]

abbrev apply_all : List Change → List Change → List Change
apply_all k [] = k
apply_all k (c ∷ cs) = let rest = apply_all (applied c k) cs in if takes k c then rest else k

abbrev stopping : Kqueue
stopping = record { Instance = List Change; create = []; change = apply_all }

abbrev stopping_laws : Laws stopping
stopping_laws = record {
  accepts = takes;
  nothing = λ k. refl;
  one_by_one = λ k c cs first. rw first refl;
  stops = λ k c cs first. rw first refl;
}

-- Descriptor 5 has a channel and descriptor 6 has none.
abbrev collected : List Change
collected =
    change_of 5 evfilt_write true
    ∷ change_of 6 evfilt_read false
    ∷ change_of 6 evfilt_write false
    ∷ change_of 5 evfilt_read false
    ∷ []

abbrev channel : Channel
channel = record no_channel { fd_ = pos 5; old_writable_ = true }

abbrev poller : Poller (Own stopping)
poller = record {
  open_max = 8;
  channels_ = λ fd. if fd == 5 then some 1 else none;
  next_tick_handlers = [];
  next_loop_handlers = [];
  after_loop_handlers = [];
  objects = λ p. none;
  own = record {
    kq_ = change_of 5 evfilt_read true ∷ [];
    events_size = pos 1;
    room = 48;
    changes_ = collected;
  };
}

update_kevents-registered_example :
    update_kevents stopping poller
    ≡ ok (record poller {
      own = record poller.own { kq_ = change_of 5 evfilt_write true ∷ []; changes_ = [] };
    })
update_kevents-registered_example =
    update_kevents-registered stopping stopping_laws poller
      (omega arith, (omega arith, (omega arith, (omega arith, tt)))) (refl, (refl, tt))

-- Only the write filter of descriptor 5 was added.
abbrev writing : Poller (Own stopping)
writing = record poller {
  objects = λ p. if p == 1 then some channel else none;
  own = record poller.own { kq_ = change_of 5 evfilt_write true ∷ []; changes_ = [] };
}

update_chanel-lost_example :
    (do w ← update_chanel stopping 1 false false writing; update_kevents stopping w) ≡ ok writing
update_chanel-lost_example =
    update_chanel-lost stopping stopping_laws writing 1 5 channel false refl refl (omega arith) refl
      refl refl

-- Deleting a filter that was not added drops the rest of its batch.
stale_delete :
    apply_all [] (change_of 5 evfilt_read false ∷ change_of 5 evfilt_write true ∷ []) ≡ []
stale_delete = refl
