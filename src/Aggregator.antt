-- ===== src/Aggregator.antt =====
-- src/WeatherAggregator.h and src/WeatherAggregator.cpp: the reports by sender, their weighted sums,
-- and the measurements that are sent to the database.
pub mod Reports
pub mod Sums
pub mod Influx
