-- ===== src/Performance/Observer/Tests.antt =====
-- Observer at concrete runs.
use go_performance_starter.Prelude.{◌+◌, none, some, List, [], ◌∷◌}
use go_performance_starter.Performance.Observer.{Readings, cached_percentiles}
use go_performance_starter.Performance.Observer.Cache.{
  Event, request, look, start, run, step, IsFresh, percentiles-IsFresh,
}

abbrev first_reading : Readings
first_reading = record {
  now = 10;
  heap = 1;
  sys = 2;
  goroutines = 3;
  js = some 40;
  css = none;
  binary = some 60;
}

abbrev second_reading : Readings
second_reading = record first_reading { now = 20; js = some 41; css = some 50; binary = none }

abbrev events : List Event
events = request 7 ∷ look 5 ∷ request 9 ∷ []

percentiles-IsFresh_example :
    IsFresh
      (step (run (start 100) events) (look 20)).seen
      (step (run (start 100) events) (look 20)).clock
      (cached_percentiles (run (start 100) events).observer ((run (start 100) events).clock + 20)).1
percentiles-IsFresh_example = percentiles-IsFresh 100 20 events
